-- ===== src/Spool.antt =====
-- storage/parquet_store.py, `DurableParquetSpool`: staged segments, the commits that move them into
-- Parquet, and the recovery of a commit that was cut off. A partition is the spool directory and
-- the Parquet directory of a feed and a date. What changes the disk is a list of operations, so
-- that it can be cut off behind any of them.
pub mod States
pub mod Transitions
pub mod Rows
pub mod Commits
pub mod Recovery
pub mod Staging
pub mod Refinement
pub mod Completion
pub mod Emptying
use mathlib.Core.Option
use bkk_collector.Base.{
  ℕ, zero, suc, Bool, true, false, not, ◌||◌, ◌&&◌, Option, none, some, List, [], ◌∷◌, ◌++◌, map,
  take, drop, length, is_empty, is_some, all, nat_beq, from_some, if◌then◌else◌, Eq, ◌==◌,
}
use bkk_collector.Base.Dict.{Dict, lookup, insert, erase, keys, has_key}
use bkk_collector.Base.Sorting.{sorted}

-- MAX_SEGMENTS_PER_COMMIT
abbrev pub max_segments : ℕ
max_segments = 20

-- A commit marker that is valid; `N` names segments, `D` names outputs.
pub record Marker (N D : Type 0) : Type 0 where
  pub sources : List N
  pub output : D
  pub expected_rows : ℕ

-- The files of a partition. A marker that is no valid transaction is `none`.
pub record Partition (N D R : Type 0) : Type 0 where
  pub segments : Dict N (List R)
  pub markers : Dict D (Option (Marker N D))
  pub outputs : Dict D (List R)

pub data DiskOp (N D R : Type 0) : Type 0 where
  write_marker : D → Marker N D → DiskOp N D R
  write_output : D → List R → DiskOp N D R
  unlink_segment : N → DiskOp N D R
  unlink_marker : D → DiskOp N D R

module _ {N R : Type 0} ⦃eN : Eq N⦄ where
  -- The rows of segments, `_read_segment` by `_read_segment`.
  unfoldable pub read_all : List N → Dict N (List R) → List R
  read_all [] segments = []
  read_all (n ∷ names) segments = from_some [] (lookup n segments) ++ read_all names segments

module _ {N D R : Type 0} ⦃eN : Eq N⦄ ⦃eD : Eq D⦄ where
  unfoldable pub apply_op : DiskOp N D R → Partition N D R → Partition N D R
  apply_op (write_marker d m) p = record p { markers = insert d (some m) p.markers }
  apply_op (write_output d rows) p = record p { outputs = insert d rows p.outputs }
  apply_op (unlink_segment n) p = record p { segments = erase n p.segments }
  apply_op (unlink_marker d) p = record p { markers = erase d p.markers }

  -- Operations up to a budget; what is left of it comes back.
  unfoldable pub run : ℕ → List (DiskOp N D R) → Partition N D R → ℕ × Partition N D R
  unfolding apply_op
  run budget [] p = (budget, p)
  run zero (op ∷ ops) p = (zero, p)
  run (suc budget) (op ∷ ops) p = run budget ops (apply_op op p)

  -- `stage`: an empty poll leaves no segment; a new name each time.
  unfoldable pub stage : N → List R → Partition N D R → Partition N D R
  stage name rows p =
      if is_empty rows then p else record p { segments = insert name rows p.segments }

  -- `output.exists() and parquet_row_count(output) == rows`
  abbrev pub has_rows : D → ℕ → Partition N D R → Bool
  has_rows d rows p = elim (lookup d p.outputs) [ none ↦ false | some o ↦ nat_beq (length o) rows ]

  unfoldable pub output_ops : Bool → D → List R → List (DiskOp N D R)
  output_ops true d rows = []
  output_ops false d rows = write_output d rows ∷ []

  -- `_commit_segments`
  unfoldable pub commit_ops : (List N → D) → List N → Partition N D R → List (DiskOp N D R)
  unfolding read_all output_ops
  commit_ops digest batch p =
      let d = digest batch in
      let rows = read_all batch p.segments in
      let marker : Marker N D = record {
        sources = batch;
        output = d;
        expected_rows = length rows;
      } in
      write_marker d marker
      ∷ (output_ops (has_rows d (length rows) p) d rows
          ++ (map unlink_segment batch ++ unlink_marker d ∷ []))

  -- The body of `_recover_commits` for a valid marker; `none` is the exception that blocks the
  -- partition.
  unfoldable pub recover_ops : D → Marker N D → Partition N D R → Option (List (DiskOp N D R))
  recover_ops d m p =
      if has_rows m.output m.expected_rows p
      then some (map unlink_segment m.sources ++ unlink_marker d ∷ [])
      else if all (λ n. has_key n p.segments) m.sources
      then some (unlink_marker d ∷ [])
      else none

  abbrev pub ops_for : D → Option (Marker N D) → Partition N D R → Option (List (DiskOp N D R))
  ops_for d none p = none
  ops_for d (some m) p = recover_ops d m p

  -- `_recover_commits`: whether the partition is blocked, the budget left, and the files.
  unfoldable pub recover_all :
      ℕ → Dict D (Option (Marker N D)) → Partition N D R → Bool × ℕ × Partition N D R
  unfolding recover_ops run
  recover_all budget [] p = (false, budget, p)
  recover_all budget ((d, marker) ∷ markers) p = elim (ops_for d marker p) [
    | none ↦ let (blocked, left, p') = recover_all budget markers p in (true, left, p')
    | some ops ↦ let (left, p') = run budget ops p in recover_all left markers p'
  ]

  -- The loop of `flush` over the batches of a partition; `allowed` is the number of batches before
  -- `should_stop` says so.
  unfoldable pub commit_all :
      (List N → D) → ℕ → ℕ → ℕ → List N → Partition N D R → ℕ × Partition N D R
  unfolding commit_ops run
  commit_all digest zero allowed budget names p = (budget, p)
  commit_all digest (suc fuel) allowed budget [] p = (budget, p)
  commit_all digest (suc fuel) zero budget (n ∷ names) p = (budget, p)
  commit_all digest (suc fuel) (suc allowed) budget (n ∷ names) p =
      let (left, p') = run budget (commit_ops digest (take max_segments (n ∷ names)) p) p in
      commit_all digest fuel allowed left (drop max_segments (n ∷ names)) p'

  abbrev pub commit_unblocked :
      (List N → D) → (N → N → Bool) → ℕ → Bool × ℕ × Partition N D R → Partition N D R
  commit_unblocked digest before allowed (true, left, p) = p
  commit_unblocked digest before allowed (false, left, p) =
      let names = sorted before (keys p.segments) in
      (commit_all digest (length names) allowed left names p).1

  -- `flush` for one partition, with the commits that come before `should_stop` and the operations
  -- that come before an interruption.
  unfoldable pub flush : (List N → D) → (N → N → Bool) → ℕ → ℕ → Partition N D R → Partition N D R
  unfolding recover_all commit_all
  flush digest before allowed budget p =
      commit_unblocked digest before allowed (recover_all budget p.markers p)
