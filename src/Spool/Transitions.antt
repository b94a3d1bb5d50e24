-- ===== src/Spool/Transitions.antt =====
-- storage/parquet_store.py, the operations of a commit and of a recovery, one at a time.
use bkk_collector.Base.{
  ℕ, ◌≡◌, sym, ap, subst, ◌∙◌, arith, true, false, Option, none, some, List, [], ◌∷◌, length,
  is_empty, Eq, ◌⊎◌, inl, inr, Bool-cases, Option-cases,
}
use mathlib.Core.Option.{some-injective}
use bkk_collector.Base.Dict.{lookup, insert, erase, has_key, member, lookup-insert, lookup-erase}
use bkk_collector.Base.Sorting.{Distinct, Keyed, erase-Keyed}
use bkk_collector.Spool.{
  Marker, Partition, write_marker, write_output, unlink_segment, unlink_marker, apply_op, read_all,
}

module _ {N D : Type 0} (digest : List N → D) where
  abbrev pub marker_of : List N → ℕ → Marker N D
  marker_of batch rows = record { sources = batch; output = digest batch; expected_rows = rows }

module _ {N : Type 0} ⦃eN : Eq N⦄ where
  -- The first name of a list that is not empty.
  some_member : (names : List N) → is_empty names ≡ false → (n : N) × (member n names ≡ true)
  some_member [] h = absurd (cc h)
  some_member (n ∷ names) h = (n, ground (arith, eN.beq_iff n n))

module _ {K V : Type 0} ⦃e : Eq K⦄ where
  erase_one : (k : K) (v : V) → erase k ((k, v) ∷ []) ≡ []
  unfolding erase
  erase_one k v = ground (arith, e.beq_iff k k)

module _ {N D R : Type 0} ⦃eN : Eq N⦄ ⦃eD : Eq D⦄ (digest : List N → D) where
  -- An output that a batch made: its segments are gone, unless a marker says that they are to go.
  pub record Made (used : List N) (moving : Option D) (p : Partition N D R) (d : D) : Type 0 where
    pub names : List N
    pub named : d ≡ digest names
    pub filled : is_empty names ≡ false
    pub were_used : (n : N) → member n names ≡ true → member n used ≡ true
    pub gone : (moving ≡ some d) ⊎ ((n : N) → member n names ≡ true → lookup n p.segments ≡ none)

  pub record Core (used : List N) (moving : Option D) (p : Partition N D R) : Type 0 where
    pub keyed : Keyed p.segments
    pub known : (n : N) → member n used ≡ false → lookup n p.segments ≡ none
    pub made : (d : D) (rows : List R) → lookup d p.outputs ≡ some rows → Made used moving p d

  -- Segments that a commit can take.
  pub record Batch (p : Partition N D R) (batch : List N) : Type 0 where
    pub filled : is_empty batch ≡ false
    pub distinct : Distinct batch
    pub present : (n : N) → member n batch ≡ true → has_key n p.segments ≡ true

  -- No commit is under way.
  pub record Idle (used : List N) (p : Partition N D R) : Type 0 where
    pub core : Core used none p
    pub markers : p.markers ≡ []

  -- A marker stands, its output does not.
  pub record Begun (used : List N) (batch : List N) (p : Partition N D R) : Type 0 where
    pub core : Core used none p
    pub markers :
        p.markers
        ≡ (digest batch, some (marker_of digest batch (length (read_all batch p.segments)))) ∷ []
    pub absent : lookup (digest batch) p.outputs ≡ none
    pub taken : Batch p batch

  -- The output stands, and the segments of the marker are to go.
  pub record Written (used : List N) (batch : List N) (p : Partition N D R) : Type 0 where
    pub rows : List R
    pub core : Core used (some (digest batch)) p
    pub markers : p.markers ≡ (digest batch, some (marker_of digest batch (length rows))) ∷ []
    pub output : lookup (digest batch) p.outputs ≡ some rows
    pub filled : is_empty batch ≡ false
    pub were_used : (n : N) → member n batch ≡ true → member n used ≡ true

  -- A name that has a file was used.
  pub present-used :
      (used : List N) (moving : Option D) (p : Partition N D R) (n : N)
      → Core used moving p
      → has_key n p.segments ≡ true
      → member n used ≡ true
  present-used used moving p n core h = elim (Bool-cases (member n used)) [
    | inl e ↦ e
    | inr e ↦ absurd (ground (arith, h, core.known n e))
  ]

  module _ (injective : (xs ys : List N) → digest xs ≡ digest ys → xs ≡ ys) where
    -- A batch of segments that are there has no output.
    pub Batch-absent :
        (used batch : List N) (p : Partition N D R)
        → Core used none p
        → Batch p batch
        → lookup (digest batch) p.outputs ≡ none
    Batch-absent used batch p core b = elim (Option-cases (lookup (digest batch) p.outputs)) [
      | inl e ↦ e
      | inr (rows, e) ↦
          let made = core.made (digest batch) rows e in
          let same : batch ≡ made.names = injective batch made.names made.named in
          let (n, h) = some_member batch b.filled in
          let there = b.present n h in
          elim made.gone [
            | inl moving ↦ absurd (cc moving)
            | inr gone ↦
                absurd (ground (arith, there, gone n (subst (λ xs. member n xs ≡ true) same h)))
          ]
    ]

    pub write_marker-Begun :
        (used batch : List N) (p : Partition N D R)
        → Idle used p
        → Batch p batch
        → Begun used batch (
            apply_op
              (write_marker
                (digest batch)
                (marker_of digest batch (length (read_all batch p.segments))))
              p)
    unfolding apply_op
    write_marker-Begun used batch p idle b = record {
      core = record {
        keyed = idle.core.keyed;
        known = idle.core.known;
        made = λ d rows e.
            let m = idle.core.made d rows e in
            record {
              names = m.names;
              named = m.named;
              filled = m.filled;
              were_used = m.were_used;
              gone = m.gone;
            };
      };
      markers =
          unfold insert in
          ap
            (insert (digest batch)
              (some (marker_of digest batch (length (read_all batch p.segments)))))
            idle.markers;
      absent = Batch-absent used batch p idle.core b;
      taken = record { filled = b.filled; distinct = b.distinct; present = b.present };
    }

    pub write_output-Written :
        (used batch : List N) (p : Partition N D R)
        → Begun used batch p
        → Written used batch (apply_op (write_output (digest batch) (read_all batch p.segments)) p)
    unfolding apply_op
    write_output-Written used batch p begun =
        let rows = read_all batch p.segments in
        let used_batch : (n : N) → member n batch ≡ true → member n used ≡ true =
          λ n h. present-used used none p n begun.core (begun.taken.present n h) in
        record {
          rows = rows;
          core = record {
            keyed = begun.core.keyed;
            known = begun.core.known;
            made = λ d others e. elim (Bool-cases (eD.beq (digest batch) d)) [
              | inl same ↦
                  let named : digest batch ≡ d = (eD.beq_iff (digest batch) d).0 same in
                  record {
                    names = batch;
                    named = sym named;
                    filled = begun.taken.filled;
                    were_used = used_batch;
                    gone = inl (ap some named);
                  }
              | inr other ↦
                  let old : lookup d p.outputs ≡ some others =
                    ground (arith, e, other, lookup-insert (digest batch) d rows p.outputs) in
                  let m = begun.core.made d others old in
                  record {
                    names = m.names;
                    named = m.named;
                    filled = m.filled;
                    were_used = m.were_used;
                    gone = elim m.gone [ inl h ↦ absurd (cc h) | inr h ↦ inr h ];
                  }
            ];
          };
          markers = begun.markers;
          output = ground (
            arith,
            lookup-insert (digest batch) (digest batch) rows p.outputs,
            eD.beq_iff (digest batch) (digest batch),
          );
          filled = begun.taken.filled;
          were_used = used_batch;
        }

    pub unlink_segment-Written :
        (used batch : List N) (n : N) (p : Partition N D R)
        → Written used batch p
        → Written used batch (apply_op (unlink_segment n) p)
    unfolding apply_op
    unlink_segment-Written used batch n p w = record {
      rows = w.rows;
      core = record {
        keyed = erase-Keyed n p.segments w.core.keyed;
        known = λ m h. ground (arith, w.core.known m h, lookup-erase n m p.segments);
        made = λ d rows e.
            let m = w.core.made d rows e in
            record {
              names = m.names;
              named = m.named;
              filled = m.filled;
              were_used = m.were_used;
              gone = elim m.gone [
                | inl h ↦ inl h
                | inr h ↦ inr (λ k kh. ground (arith, h k kh, lookup-erase n k p.segments))
              ];
            };
      };
      markers = w.markers;
      output = w.output;
      filled = w.filled;
      were_used = w.were_used;
    }

    pub unlink_marker-Idle :
        (used batch : List N) (p : Partition N D R)
        → Written used batch p
        → ((n : N) → member n batch ≡ true → lookup n p.segments ≡ none)
        → Idle used (apply_op (unlink_marker (digest batch)) p)
    unfolding apply_op
    unlink_marker-Idle used batch p w gone = record {
      core = record {
        keyed = w.core.keyed;
        known = w.core.known;
        made = λ d rows e.
            let m = w.core.made d rows e in
            record {
              names = m.names;
              named = m.named;
              filled = m.filled;
              were_used = m.were_used;
              gone = inr (elim m.gone [
                | inl h ↦
                    let same : batch ≡ m.names =
                      injective batch m.names (some-injective (digest batch) d h ∙ m.named) in
                    (λ k kh. gone k (subst (λ xs. member k xs ≡ true) (sym same) kh))
                | inr h ↦ h
              ]);
            };
      };
      markers =
          ap (erase (digest batch)) w.markers
          ∙ erase_one (digest batch) (some (marker_of digest batch (length w.rows)));
    }

    pub unlink_marker-Begun-Idle :
        (used batch : List N) (p : Partition N D R)
        → Begun used batch p
        → Idle used (apply_op (unlink_marker (digest batch)) p)
    unfolding apply_op
    unlink_marker-Begun-Idle used batch p begun = record {
      core = record {
        keyed = begun.core.keyed;
        known = begun.core.known;
        made = λ d rows e.
            let m = begun.core.made d rows e in
            record {
              names = m.names;
              named = m.named;
              filled = m.filled;
              were_used = m.were_used;
              gone = m.gone;
            };
      };
      markers =
          ap (erase (digest batch)) begun.markers
          ∙ erase_one (digest batch)
              (some (marker_of digest batch (length (read_all batch p.segments))));
    }
