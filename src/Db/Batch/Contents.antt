-- ===== src/Db/Batch/Contents.antt =====
-- What the roots of the batch backend hold.
use contreap.Prelude.{
  ℕ, ◌+◌, ◌≡◌, ◌<◌, ◌≤◌, refl, arith, true, some, List, [], ◌∷◌, ◌++◌, length, length-append, wrap,
  u64_mod, ◌==◌, ltb, inl, inr, Bool-cases, ◌∙◌, sym, ap,
}
use contreap.Tree.{bag, total}
use contreap.Tree.Order.{All, IsInjective, IsTreap}
use contreap.Pam.Node.{cell_keyed}
use contreap.Pam.BuildVersioned.Versions.{Older}
use contreap.Pam.Sums.{IsAugmented}
use contreap.Pam.Sums.Older.{All-Older-mono}
use contreap.Db.Batch.{
  Operation, Root, Batch, with_root, same, updated, commit, do_update, enbuffer, change_type,
  update_if_full, update_enbuffer,
}
use contreap.Db.Logging.{CanLog, log_aug-some}
use contreap.Db.Batch.Order.{Descending, AllUpTo-mono}
use contreap.Db.Batch.Updates.{
  applied, apply_one, applied-none, applied-append, applied-same, same→eq, updated-IsTreap,
  bag-updated, total-updated, updated-IsAugmented, updated-Older,
}

-- A root holds the database of its version, for the databases `copies_at` of all versions.
pub record IsRoot (hash : ℕ → ℕ) (copies_at : ℕ → ℕ → ℕ) (root : Root) : Type 0 where
  pub treap : IsTreap hash root.t
  pub holds : (j : ℕ) → bag root.t j ≡ copies_at root.ver j
  pub size : total root.t < u64_mod
  pub sums : IsAugmented root.t
  pub older : All (Older (root.ver + 1)) root.t

abbrev pub AllRoots : (ℕ → ℕ) → (ℕ → ℕ → ℕ) → List Root → Type 0
AllRoots hash copies_at [] = Unit
AllRoots hash copies_at (root ∷ roots) = IsRoot hash copies_at root × AllRoots hash copies_at roots

module _ {Q : Type 0} (hash : ℕ → ℕ) where
  -- The state between two calls, on `n` initial keys.
  pub record Holds (copies_at : ℕ → ℕ → ℕ) (n : ℕ) (s : Batch Q) : Type 0 where
    pub latest : Root
    pub earlier : List Root
    pub stored : s.roots ≡ latest ∷ earlier
    pub current : latest.ver ≡ s.version_committed
    pub bounded : total latest.t ≤ n + s.version_committed
    pub is_latest : IsRoot hash copies_at latest
    pub are_earlier : AllRoots hash copies_at earlier
    pub descending : Descending (latest ∷ earlier)
    pub counted : s.version_submitted ≡ s.version_committed + length s.buffer
    pub pending :
        (j : ℕ)
        → copies_at s.version_submitted j
          ≡ applied s.buffer_type s.buffer (copies_at s.version_committed) j

  module _ (log_level : ℕ) (injective : IsInjective hash) (copies_at : ℕ → ℕ → ℕ) (n : ℕ)
      (logs : (v : ℕ) → CanLog log_level (copies_at v)) where
    pub do_update-Holds :
        (s : Batch Q)
        → Holds copies_at n s
        → n + s.version_submitted < u64_mod
        → (s' : Batch Q) × (do_update log_level hash s ≡ some s')
          × Holds copies_at n s'
          × (s'.buffer ≡ [])
          × (s'.version_submitted ≡ s.version_submitted)
          × (s'.batch_size ≡ s.batch_size)
          × (s'.buffer_type ≡ s.buffer_type)
    unfolding do_update commit
    do_update-Holds s h w =
        let ver = wrap (s.version_committed + 1) in
        let fits : total h.latest.t + length s.buffer < u64_mod =
          omega (arith, h.bounded, h.counted) in
        let next : wrap (s.version_committed + length s.buffer) ≡ s.version_submitted =
          omega (arith, h.counted) in
        let t_new = updated hash s.buffer_type h.latest.t ver s.buffer in
        let root_ver = wrap (s.version_committed + length s.buffer) in
        let holds : (j : ℕ) → bag t_new j ≡ copies_at root_ver j = λ j.
          bag-updated hash injective s.buffer_type h.latest.t ver s.buffer j h.is_latest.treap fits
          ∙ applied-same s.buffer_type s.buffer (bag h.latest.t) (copies_at s.version_committed) j
              (h.is_latest.holds j ∙ ap (λ v. copies_at v j) h.current)
          ∙ sym (h.pending j)
          ∙ ap (λ v. copies_at v j) (sym next) in
        (
          with_root s t_new h.latest h.earlier,
          rw h.stored (
              log_aug-some log_level (copies_at root_ver) t_new
                (with_root s t_new h.latest h.earlier) holds (logs root_ver)),
          record {
            latest = record {
              ver = wrap (s.version_committed + length s.buffer);
              t = updated hash s.buffer_type h.latest.t ver s.buffer;
            };
            earlier = h.latest ∷ h.earlier;
            stored = refl;
            current = refl;
            bounded = omega (
              arith,
              h.bounded,
              h.counted,
              next,
              total-updated hash injective s.buffer_type h.latest.t ver s.buffer fits,
            );
            is_latest = record {
              treap =
                  updated-IsTreap hash injective s.buffer_type h.latest.t ver s.buffer
                    h.is_latest.treap fits;
              holds = holds;
              size = omega (
                arith,
                fits,
                total-updated hash injective s.buffer_type h.latest.t ver s.buffer fits,
              );
              sums =
                  updated-IsAugmented hash s.buffer_type h.latest.t ver s.buffer h.is_latest.sums;
              older =
                  updated-Older hash s.buffer_type h.latest.t ver _ s.buffer
                    (All-Older-mono (h.latest.ver + 1) _ h.latest.t
                      (omega (arith, h.current, h.counted, next)) h.is_latest.older)
                    (omega (arith, h.counted, next)) (omega (arith, next));
            };
            are_earlier = (h.is_latest, h.are_earlier);
            descending = (
              (
                omega (arith, h.current, h.counted, next),
                AllUpTo-mono h.latest.ver _ h.earlier (omega (arith, h.current, h.counted, next))
                    h.descending.0,
              ),
              h.descending,
            );
            counted = omega (arith, next);
            pending =
                λ j. rw next (sym (applied-none s.buffer_type (copies_at s.version_submitted) j));
          },
          refl,
          refl,
          refl,
          refl,
        )

    enbuffer-Holds :
        (s : Batch Q) (k : ℕ)
        → Holds copies_at n s
        → n + s.version_submitted + 1 < u64_mod
        → length s.buffer < s.batch_size
        → copies_at (s.version_submitted + 1)
          ≡ apply_one s.buffer_type k (copies_at s.version_submitted)
        → (s' : Batch Q) × (enbuffer s k ≡ some s')
          × Holds copies_at n s'
          × (s'.version_submitted ≡ s.version_submitted + 1)
          × (s'.batch_size ≡ s.batch_size)
          × (length s'.buffer ≤ s'.batch_size)
    unfolding enbuffer
    enbuffer-Holds s k h w room e =
        let next : wrap (s.version_submitted + 1) ≡ s.version_submitted + 1 = omega arith in
        let fits : ltb (length s.buffer) s.batch_size ≡ true = ground arith in
        (
          record s {
            buffer = s.buffer ++ k ∷ [];
            version_submitted = wrap (s.version_submitted + 1);
          },
          rw (fits, enbuffer),
          record {
            latest = h.latest;
            earlier = h.earlier;
            stored = h.stored;
            current = h.current;
            bounded = h.bounded;
            is_latest = h.is_latest;
            are_earlier = h.are_earlier;
            descending = h.descending;
            counted = omega (arith, h.counted, length-append s.buffer (k ∷ []));
            pending = λ j.
                ap (λ v. copies_at v j) next
                ∙ ap (λ (c : ℕ → ℕ). c j) e
                ∙ applied-append s.buffer_type s.buffer k (copies_at s.version_submitted)
                    (copies_at s.version_committed) j (h.pending j);
          },
          next,
          refl,
          omega (arith, length-append s.buffer (k ∷ [])),
        )

    change_type-Holds :
        (s : Batch Q) (type : Operation)
        → Holds copies_at n s
        → n + s.version_submitted < u64_mod
        → length s.buffer < s.batch_size
        → (s' : Batch Q) × (change_type log_level hash s type ≡ some s')
          × Holds copies_at n s'
          × (s'.version_submitted ≡ s.version_submitted)
          × (s'.batch_size ≡ s.batch_size)
          × (length s'.buffer < s'.batch_size)
          × (s'.buffer_type ≡ type)
    unfolding change_type
    change_type-Holds s type h w room = elim (Bool-cases (same s.buffer_type type)) [
      | inl e ↦ (s, rw (e, change_type), h, refl, refl, room, same→eq s.buffer_type type e)
      | inr e ↦
          let (s1, done, h1, empty, submitted, size, kind) = do_update-Holds s h w in
          let flushed : length s1.buffer ≡ 0 = rw empty in
          (
            record s1 { buffer_type = type },
            rw (e, done, change_type),
            record {
              latest = h1.latest;
              earlier = h1.earlier;
              stored = h1.stored;
              current = h1.current;
              bounded = h1.bounded;
              is_latest = h1.is_latest;
              are_earlier = h1.are_earlier;
              descending = h1.descending;
              counted = h1.counted;
              pending = λ j. rw empty (
                  rw empty at (h1.pending j)
                  ∙ applied-none s1.buffer_type (copies_at s1.version_committed) j
                  ∙ sym (applied-none type (copies_at s1.version_committed) j));
            },
            submitted,
            size,
            omega arith,
            refl,
          )
    ]

    update_if_full-Holds :
        (s : Batch Q)
        → Holds copies_at n s
        → n + s.version_submitted < u64_mod
        → 0 < s.batch_size
        → length s.buffer ≤ s.batch_size
        → (s' : Batch Q) × (update_if_full log_level hash s ≡ some s')
          × Holds copies_at n s'
          × (s'.version_submitted ≡ s.version_submitted)
          × (s'.batch_size ≡ s.batch_size)
          × (length s'.buffer < s'.batch_size)
    unfolding update_if_full
    update_if_full-Holds s h w pos le = elim (Bool-cases (length s.buffer == s.batch_size)) [
      | inl e ↦
          let (s1, done, h1, empty, submitted, size, kind) = do_update-Holds s h w in
          let flushed : length s1.buffer ≡ 0 = rw empty in
          (s1, rw (e, done, update_if_full), h1, submitted, size, omega arith)
      | inr e ↦ (s, rw (e, update_if_full), h, refl, refl, ground arith)
    ]

    pub update_enbuffer-Holds :
        (s : Batch Q) (type : Operation) (k : ℕ)
        → Holds copies_at n s
        → n + s.version_submitted + 1 < u64_mod
        → length s.buffer < s.batch_size
        → copies_at (s.version_submitted + 1) ≡ apply_one type k (copies_at s.version_submitted)
        → (s' : Batch Q) × (update_enbuffer log_level hash s type k ≡ some s')
          × Holds copies_at n s'
          × (s'.version_submitted ≡ s.version_submitted + 1)
          × (s'.batch_size ≡ s.batch_size)
          × (length s'.buffer < s'.batch_size)
    unfolding update_enbuffer
    update_enbuffer-Holds s type k h w room e =
        let (s1, done1, h1, submitted1, size1, room1, kind) =
          change_type-Holds s type h (omega arith) room in
        let (s2, done2, h2, submitted2, size2, le) =
          enbuffer-Holds s1 k h1 (omega arith) room1 (rw (submitted1, kind) e) in
        let (s3, done3, h3, submitted3, size3, room3) =
          update_if_full-Holds s2 h2 (omega arith) (omega arith) le in
        (
          s3,
          rw (done1, done2, done3),
          h3,
          omega (arith, submitted1, submitted2, submitted3),
          omega (arith, size1, size2, size3),
          room3,
        )
