-- ===== src/Db/Batch/Seek.antt =====
-- Where the search of a client thread for a version ends.
use contreap.Prelude.{
  ℕ, ◌+◌, ◌≡◌, ◌<◌, ◌≤◌, refl, arith, false, some, List, [], ◌∷◌, length, wrap, u64_mod, pred_u64,
  ltb, leb, ◌&&◌, inl, inr, Bool-cases, ◌∙◌, ap,
}
use contreap.Db.Batch.{Root}
use contreap.Db.Batch.Client.{
  Cursor, Outcome, rewind, advance, look_again, seek, read_root, outcome, process_range_query,
}

-- The list of the roots, oldest first, and its last root.
abbrev pub chain : List Root → List Root → List Root
chain [] roots = roots
chain (prev ∷ behind) roots = chain behind (prev ∷ roots)

abbrev pub newest : Root → List Root → Root
newest cur [] = cur
newest cur (next ∷ ahead) = newest next ahead

-- The root before the cursor, if there is one, is older than the version.
abbrev pub Older : ℕ → List Root → Type 0
Older ver [] = Unit
Older ver (prev ∷ behind) = prev.ver < ver

-- A cursor into a list with `num_versions` roots after the first.
pub record IsCursor (num_versions : ℕ) (c : Cursor) : Type 0 where
  pub placed : c.cur_vid ≡ length c.behind
  pub counted : c.cur_vid + length c.ahead ≡ num_versions
  pub known : c.last_vid ≤ num_versions

-- The same list seen from another root.
pub record Moved (num_versions : ℕ) (c c' : Cursor) : Type 0 where
  pub valid : IsCursor num_versions c'
  pub same : chain c'.behind (c'.cur_root ∷ c'.ahead) ≡ chain c.behind (c.cur_root ∷ c.ahead)
  pub end : newest c'.cur_root c'.ahead ≡ newest c.cur_root c.ahead

abbrev cursor : ℕ → ℕ → List Root → Root → List Root → Cursor
cursor vid last behind cur ahead = record {
  cur_vid = vid;
  last_vid = last;
  behind = behind;
  cur_root = cur;
  ahead = ahead;
}

rewind-Moved :
    (num ver last vid : ℕ) (behind : List Root) (cur : Root) (ahead : List Root)
    → IsCursor num (cursor vid last behind cur ahead)
    → num < u64_mod
    → Moved num (cursor vid last behind cur ahead) (rewind ver last vid behind cur ahead)
      × ((rewind ver last vid behind cur ahead).last_vid ≡ last)
      × Older ver (rewind ver last vid behind cur ahead).behind
unfolding rewind
rewind-Moved num ver last vid [] cur ahead v w =
    (record { valid = v; same = refl; end = refl }, refl, tt)
rewind-Moved num ver last vid (prev ∷ behind) cur ahead v w = elim (Bool-cases (leb ver prev.ver)) [
  | inl e ↦
      let back : pred_u64 vid + 1 ≡ vid = omega (arith, v.placed, v.counted) in
      let (m, l, o) =
        rewind-Moved num ver last (pred_u64 vid) behind prev (cur ∷ ahead)
          (record {
            placed = omega (arith, v.placed);
            counted = omega (arith, v.counted);
            known = v.known;
          })
          w in
      rw (e, rewind) (record { valid = m.valid; same = m.same; end = m.end }, l, o)
  | inr e ↦ rw (e, rewind) (record { valid = v; same = refl; end = refl }, refl, ground arith)
]

-- An advance stops at the version, or where the thread knows of no more roots.
record Advanced (num ver last : ℕ) (c c' : Cursor) : Type 0 where
  moved : Moved num c c'
  older : Older ver c'.behind
  stopped : c'.cur_root.ver < ver → last ≤ c'.cur_vid

advance-Advanced :
    (num ver last vid : ℕ) (behind : List Root) (cur : Root) (ahead : List Root)
    → IsCursor num (cursor vid last behind cur ahead)
    → num < u64_mod
    → Older ver behind
    → (c' : Cursor) × (advance ver last vid behind cur ahead ≡ some c')
      × Advanced num ver last (cursor vid last behind cur ahead) c'
unfolding advance
advance-Advanced num ver last vid behind cur [] v w o =
    let rest : (ltb cur.ver ver && ltb vid last) ≡ false = ground (arith, v.counted, v.known) in
    (
      cursor vid last behind cur [],
      rw (rest, advance),
      record {
        moved = record { valid = v; same = refl; end = refl };
        older = o;
        stopped = λ h. omega (arith, v.counted, v.known);
      },
    )
advance-Advanced num ver last vid behind cur (next ∷ ahead) v w o =
    elim (Bool-cases (ltb cur.ver ver && ltb vid last)) [
      | inl e ↦
          let next_vid : wrap (vid + 1) ≡ vid + 1 = omega (arith, v.counted) in
          let (c', done, a) =
            advance-Advanced num ver last (wrap (vid + 1)) (cur ∷ behind) next ahead
              (record {
                placed = omega (arith, v.placed);
                counted = omega (arith, v.counted);
                known = v.known;
              })
              w (ground arith) in
          (
            c',
            rw (e, advance) done,
            record {
              moved = record { valid = a.moved.valid; same = a.moved.same; end = a.moved.end };
              older = a.older;
              stopped = a.stopped;
            },
          )
      | inr e ↦ (
        cursor vid last behind cur (next ∷ ahead),
        rw (e, advance),
        record {
          moved = record { valid = v; same = refl; end = refl };
          older = o;
          stopped = λ h. ground arith;
        },
      )
    ]

at_end :
    (num ver vid : ℕ) (cur : Root) (ahead : List Root)
    → vid + length ahead ≡ num
    → (cur.ver < ver → num ≤ vid)
    → ver ≤ (newest cur ahead).ver
    → ver ≤ cur.ver
at_end num ver vid cur [] e stopped le = le
at_end num ver vid cur (next ∷ ahead) e stopped le = elim (Bool-cases (ltb cur.ver ver)) [
  | inl h ↦ omega (arith, stopped (ground arith))
  | inr h ↦ ground arith
]

-- The cursor after a search: on the first root that has the version.
pub record IsFound (num ver : ℕ) (c c' : Cursor) : Type 0 where
  pub moved : Moved num c c'
  pub older : Older ver c'.behind
  pub has : ver ≤ c'.cur_root.ver

look_again-IsFound :
    (num ver : ℕ) (c : Cursor)
    → IsCursor num c
    → num < u64_mod
    → Older ver c.behind
    → ver ≤ (newest c.cur_root c.ahead).ver
    → (c' : Cursor) × (look_again num ver c ≡ some c') × IsFound num ver c c'
unfolding look_again
look_again-IsFound num ver c v w o le = elim (Bool-cases (ltb c.cur_root.ver ver)) [
  | inl e ↦
      let (c', done, a) =
        advance-Advanced num ver num c.cur_vid c.behind c.cur_root c.ahead
          (record { placed = v.placed; counted = v.counted; known = omega arith }) w o in
      (
        c',
        rw (e, look_again) done,
        record {
          moved = record { valid = a.moved.valid; same = a.moved.same; end = a.moved.end };
          older = a.older;
          has =
              at_end num ver c'.cur_vid c'.cur_root c'.ahead a.moved.valid.counted a.stopped
                (rw a.moved.end le);
        },
      )
  | inr e ↦ (
    c,
    rw (e, look_again),
    record { moved = record { valid = v; same = refl; end = refl }; older = o; has = ground arith },
  )
]

seek-IsFound :
    (num ver : ℕ) (c : Cursor)
    → IsCursor num c
    → num < u64_mod
    → ver ≤ (newest c.cur_root c.ahead).ver
    → (c' : Cursor) × (seek num ver c ≡ some c') × IsFound num ver c c'
unfolding seek
seek-IsFound num ver c v w le =
    let c1 = rewind ver c.last_vid c.cur_vid c.behind c.cur_root c.ahead in
    let (m1, same_last, o1) =
      rewind-Moved num ver c.last_vid c.cur_vid c.behind c.cur_root c.ahead v w in
    let (c2, done, a) =
      advance-Advanced num ver c1.last_vid c1.cur_vid c1.behind c1.cur_root c1.ahead m1.valid w
        o1 in
    let end = a.moved.end ∙ m1.end in
    let (c3, again, f) = look_again-IsFound num ver c2 a.moved.valid w a.older (rw end le) in
    (
      c3,
      rw done again,
      record {
        moved = record {
          valid = f.moved.valid;
          same = f.moved.same ∙ a.moved.same ∙ m1.same;
          end = f.moved.end ∙ end;
        };
        older = f.older;
        has = f.has;
      },
    )

outcome_found :
    (ver l r : ℕ) (c : Cursor)
    → ver ≤ c.cur_root.ver
    → outcome ver l r c ≡ Outcome.value c (read_root c.cur_root ver l r)
unfolding outcome
outcome_found ver l r c le =
    let committed : ltb c.cur_root.ver ver ≡ false = ground arith in rw (committed, outcome)

-- A client's query of a committed version is answered, wherever its cursor is in the list of the
-- roots: from the tree of a root whose version is not less than that of the query, while the root
-- before it, if there is one, has a smaller version. The list stays the same, and the cursor is
-- valid again.
pub process_range_query_lem :
    (num ver l r : ℕ) (c : Cursor)
    → IsCursor num c
    → num < u64_mod
    → ver ≤ (newest c.cur_root c.ahead).ver
    → (c' : Cursor) × (process_range_query num ver l r c
        ≡ some (Outcome.value c' (read_root c'.cur_root ver l r)))
      × IsFound num ver c c'
unfolding process_range_query
process_range_query_lem num ver l r c v w le =
    let (c', done, f) = seek-IsFound num ver c v w le in
    (c', rw done (ap some (outcome_found ver l r c' f.has)), f)
