-- ===== src/Collector/Calls.antt =====
-- collector.py, sequences of calls of `_archive_raw`, and conditionals.
use bkk_collector.Base.{
  ◌≡◌, refl, sym, ap, ◌∙◌, Bool, ◌&&◌, Option, List, [], ◌∷◌, ◌++◌, if◌then◌else◌, Bool-cases, inl,
  inr, ◌==◌, ==_refl, string_eq, option_eq, append-nil, append_assoc,
}
use bkk_collector.RawLog.{Bytes}
use bkk_collector.Archive.{RawPath, path_eq, Archive, raw_archived}
use bkk_collector.Archive.Durable.{item_of}
use bkk_collector.Archive.Runs.{Call, call, run_calls, reported_to}

module _ {A B : Type 0} where
  -- What holds of both branches.
  pub at_if :
      (f : A → B) (v : B) (b : Bool) {x y : A} → f x ≡ v → f y ≡ v → f (if b then x else y) ≡ v
  at_if f v b hx hy = elim (Bool-cases b) [ inl e ↦ rw e hx | inr e ↦ rw e hy ]

module _ {A : Type 0} where
  pub holds_if : (Q : A → Type 0) (b : Bool) {x y : A} → Q x → Q y → Q (if b then x else y)
  holds_if Q b hx hy = elim (Bool-cases b) [ inl e ↦ rw e hx | inr e ↦ rw e hy ]

module _ (compress : Bytes → Bytes) (decompress : Bytes → Option Bytes) (fsync : Bool) where
  pub run_calls-append :
      (calls more : List Call) (a : Archive)
      → run_calls compress decompress fsync (calls ++ more) a
        ≡ run_calls compress decompress fsync more (run_calls compress decompress fsync calls a)
  unfolding run_calls
  run_calls-append [] more a = refl
  run_calls-append (c ∷ calls) more a =
      run_calls-append calls more (call compress decompress fsync c a).1

  pub reported_to-append :
      (p : RawPath) (calls more : List Call) (a : Archive)
      → reported_to compress decompress fsync p (calls ++ more) a
        ≡ reported_to compress decompress fsync p calls a
          ++ reported_to compress decompress fsync p more
              (run_calls compress decompress fsync calls a)
  unfolding run_calls reported_to
  reported_to-append p [] more a = refl
  reported_to-append p (c ∷ calls) more a =
      let here =
        if c.response.path == p && raw_archived (call compress decompress fsync c a).0
        then item_of c.response ∷ []
        else [] in
      ap (λ xs. here ++ xs) (reported_to-append p calls more (call compress decompress fsync c a).1)
      ∙ sym (
          append_assoc here
            (reported_to compress decompress fsync p calls (call compress decompress fsync c a).1)
            (reported_to compress decompress fsync p more
              (run_calls compress decompress fsync calls (call compress decompress fsync c a).1)))

  pub run_one :
      (c : Call) (a : Archive)
      → run_calls compress decompress fsync (c ∷ []) a ≡ (call compress decompress fsync c a).1
  unfolding run_calls
  run_one c a = refl

  pub reported_one :
      (p : RawPath) (c : Call) (a : Archive)
      → c.response.path ≡ p
      → reported_to compress decompress fsync p (c ∷ []) a ≡ (
          if raw_archived (call compress decompress fsync c a).0
          then item_of c.response ∷ []
          else [])
  unfolding reported_to run_calls
  reported_one p c a h =
      ap
        (λ b.
          (if b && raw_archived (call compress decompress fsync c a).0
            then item_of c.response ∷ []
            else [])
          ++ [])
        (ap (λ q. q == p) h ∙ ==_refl p)
      ∙ append-nil (
          if raw_archived (call compress decompress fsync c a).0
          then item_of c.response ∷ []
          else [])
