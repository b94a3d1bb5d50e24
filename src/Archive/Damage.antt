-- ===== src/Archive/Damage.antt =====
-- collector.py, what a log of the raw archive holds, and what a repair that fails leaves of it.
use bkk_collector.Base.{
  ℕ, ◌≡◌, refl, arith, Bool, true, Option, none, some, List, ◌∷◌, ◌==◌, ==_iff, string_eq,
  if◌then◌else◌, Bool-cases, ◌⊎◌, inl, inr, subst, sym, ◌&&◌,
}
use bkk_collector.Base.Dict.{member, lookup-insert}
use bkk_collector.RawLog.{
  Bytes, LogFile, RepairCut, untouched, copied, detached, truncated, repair_truncated_tail,
  repair_cut,
}
use bkk_collector.RawLog.Lives.{Life, copies, truncates}
use bkk_collector.Archive.{
  RawPath, path_eq, path_beq_iff, Archive, log_at, put_log, Attempt, mark, damage,
}

pub log_at-put :
    (q p : RawPath) (log : LogFile) (a : Archive)
    → log_at p (put_log q log a) ≡ (if q == p then log else log_at p a)
log_at-put q p log a = ground (arith, lookup-insert q p log a.logs)

pub log_at-mark : (q p : RawPath) (a : Archive) → log_at p (mark q a) ≡ log_at p a
unfolding mark
log_at-mark q p a = ground arith

pub member-mark :
    (q p : RawPath) (a : Archive)
    → (p ≡ q) ⊎ (member p a.needs_repair ≡ true)
    → member p (mark q a).needs_repair ≡ true
unfolding mark
member-mark q p a h = ground (arith, path_beq_iff p q)

module _ (compress : Bytes → Bytes) (decompress : Bytes → Option Bytes) where
  -- The log of a path holds what was kept, and is fit for an append or marked for a repair.
  pub record Holds (p : RawPath) (kept : List (ℕ × Bytes)) (a : Archive) : Type 0 where
    pub fit : Bool
    pub life : Life compress decompress (log_at p a) kept fit
    pub marked : (fit ≡ true) ⊎ (member p a.needs_repair ≡ true)

  -- The log of a path is fit for an append.
  abbrev pub Ready : RawPath → List (ℕ × Bytes) → Archive → Type 0
  Ready p kept a = Life compress decompress (log_at p a) kept true

  -- A repair that raises leaves what the log holds, and leaves it fit where it was.
  record Cut (log : LogFile) (kept : List (ℕ × Bytes)) (before : Bool) : Type 0 where
    fit : Bool
    life : Life compress decompress log kept fit
    keeps : before ≡ true → fit ≡ true

  truncated-Cut :
      (log : LogFile) (kept : List (ℕ × Bytes)) (fit : Bool) (r : Option (Option Bytes × LogFile))
      → repair_truncated_tail decompress log ≡ r
      → Life compress decompress log kept fit
      → Cut (truncated decompress log r) kept fit
  unfolding truncated
  truncated-Cut log kept fit none e life = record { fit = fit; life = life; keeps = λ h. h }
  truncated-Cut log kept fit (some (none, l)) e life = record {
    fit = fit;
    life = life;
    keeps = λ h. h;
  }
  truncated-Cut log kept fit (some (some tail, l)) e life = record {
    fit = true;
    life = truncates tail life e refl;
    keeps = λ h. refl;
  }

  repair_cut-Cut :
      (cut : RepairCut) (log : LogFile) (kept : List (ℕ × Bytes)) (fit : Bool)
      → Life compress decompress log kept fit
      → Cut (repair_cut decompress cut log) kept fit
  unfolding repair_cut
  repair_cut-Cut untouched log kept fit life = record { fit = fit; life = life; keeps = λ h. h }
  repair_cut-Cut (copied bytes) log kept fit life = record {
    fit = fit;
    life = copies bytes life refl;
    keeps = λ h. h;
  }
  repair_cut-Cut detached log kept fit life =
      truncated-Cut log kept fit (repair_truncated_tail decompress log) refl life

  damage-Cut :
      (attempt : Attempt) (r q p : RawPath) (kept : List (ℕ × Bytes)) (fit : Bool) (a : Archive)
      → Life compress decompress (log_at p a) kept fit
      → Cut (log_at p (damage decompress attempt r q a)) kept fit
  unfolding damage
  damage-Cut attempt r q p kept fit a life =
      elim (Bool-cases (q.feed == r.feed && attempt.repair_fails q)) [
        | inr fine ↦ rw fine (record { fit = fit; life = life; keeps = λ h. h })
        | inl raises ↦
            let left = repair_cut decompress (attempt.repair_leaves q) (log_at q a) in
            rw (raises, log_at-put q p left a)
              (elim (Bool-cases (q == p)) [
                | inl same ↦ rw same (
                    repair_cut-Cut (attempt.repair_leaves q) (log_at q a) kept fit (
                      subst (λ x. Life compress decompress (log_at x a) kept fit)
                        (sym ((==_iff q p).0 same)) life))
                | inr other ↦ rw other (record { fit = fit; life = life; keeps = λ h. h })
              ])
      ]

  damage-needs_repair :
      (attempt : Attempt) (r q : RawPath) (a : Archive)
      → (damage decompress attempt r q a).needs_repair ≡ a.needs_repair
  unfolding damage
  damage-needs_repair attempt r q a = ground arith

  pub damage-Holds :
      (attempt : Attempt) (r q p : RawPath) (kept : List (ℕ × Bytes)) (a : Archive)
      → Holds p kept a
      → Holds p kept (damage decompress attempt r q a)
  damage-Holds attempt r q p kept a holds =
      let cut = damage-Cut attempt r q p kept holds.fit a holds.life in
      record {
        fit = cut.fit;
        life = cut.life;
        marked = elim holds.marked [
          | inl ready ↦ inl (cut.keeps ready)
          | inr waits ↦ inr (rw (damage-needs_repair attempt r q a) waits)
        ];
      }

  damage-Ready :
      (attempt : Attempt) (r q : RawPath) (kept : List (ℕ × Bytes)) (a : Archive)
      → Ready r kept a
      → Ready r kept (damage decompress attempt r q a)
  damage-Ready attempt r q kept a ready =
      let cut = damage-Cut attempt r q r kept true a ready in
      subst (λ b. Life compress decompress (log_at r (damage decompress attempt r q a)) kept b)
        (cut.keeps refl) cut.life

  pub damage_waits :
      (attempt : Attempt) (r q : RawPath) (kept : List (ℕ × Bytes)) (ps : List RawPath)
      (a : Archive)
      → Ready r kept a ⊎ (member r (q ∷ ps) ≡ true)
      → Ready r kept (damage decompress attempt r q a) ⊎ (member r (q ∷ ps) ≡ true)
  damage_waits attempt r q kept ps a (inl ready) = inl (damage-Ready attempt r q kept a ready)
  damage_waits attempt r q kept ps a (inr waits) = inr waits
