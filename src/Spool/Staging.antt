-- ===== src/Spool/Staging.antt =====
-- storage/parquet_store.py, `DurableParquetSpool.stage` and `pending_segments`: a new segment in
-- any state of its partition.
use bkk_collector.Base.{
  ◌+◌, ◌≡◌, refl, sym, ap, ◌∙◌, arith, Bool, true, false, Option, none, some, List, [], ◌∷◌, length,
  Eq, ◌⊎◌, inl, inr, Bool-cases,
}
use bkk_collector.Base.Dict.{Dict, lookup, insert, erase, has_key, member, keys, lookup-insert}
use bkk_collector.Base.Sorting.{
  sorted, total, insert-Keyed, total-insert, erase-insert, member-sorted, keys-lookup,
}
use bkk_collector.Spool.{Partition, read_all, stage}
use bkk_collector.Spool.States.{tally, without, lookup-without, claimed, readable}
use bkk_collector.Spool.Transitions.{Core, Idle, present-used, marker_of}
use bkk_collector.Spool.Rows.{readable_of, claimed_idle, claimed_absent, claimed_written}
use bkk_collector.Spool.Commits.{Open}

module _ {N R : Type 0} ⦃eN : Eq N⦄ where
  without-insert :
      (n : N) (rows : List R) (names : List N) (d : Dict N (List R))
      → member n names ≡ false
      → without names (insert n rows d) ≡ insert n rows (without names d)
  without-insert n rows [] d h = refl
  without-insert n rows (m ∷ names) d h =
      ap (without names) (erase-insert m n rows d (ground (arith, h, eN.beq_iff n m)))
      ∙ without-insert n rows names (erase m d) (ground (arith, h))

  read_all-insert :
      (n : N) (rows : List R) (names : List N) (d : Dict N (List R))
      → member n names ≡ false
      → read_all names (insert n rows d) ≡ read_all names d
  unfolding read_all
  read_all-insert n rows [] d h = refl
  read_all-insert n rows (m ∷ names) d h =
      ground (arith, read_all-insert n rows names d, lookup-insert n m rows d, h)

  total-without-insert :
      (test : R → Bool) (n : N) (rows : List R) (names : List N) (d : Dict N (List R))
      → member n names ≡ false
      → lookup n d ≡ none
      → total (tally test) (without names (insert n rows d))
        ≡ tally test rows + total (tally test) (without names d)
  total-without-insert test n rows names d h absent =
      ap (total (tally test)) (without-insert n rows names d h)
      ∙ total-insert (tally test) n rows (without names d)
          (ground (arith, lookup-without n names d, absent))

  pub sorted-present :
      (before : N → N → Bool) (n : N) (d : Dict N (List R))
      → member n (sorted before (keys d)) ≡ true
      → has_key n d ≡ true
  sorted-present before n d h = ground (arith, h, member-sorted before n (keys d), keys-lookup n d)

module _ {N : Type 0} ⦃eN : Eq N⦄ where
  -- A name that is not among those used is none of a list of used ones.
  unused_member :
      (n : N) (used names : List N)
      → member n used ≡ false
      → ((m : N) → member m names ≡ true → member m used ≡ true)
      → member n names ≡ false
  unused_member n used names h sub = elim (Bool-cases (member n names)) [
    | inl e ↦ absurd (ground (arith, h, sub n e))
    | inr e ↦ e
  ]

module _ {N D R : Type 0} ⦃eN : Eq N⦄ ⦃eD : Eq D⦄ (digest : List N → D) where
  -- No commit under way, or one that was cut off.
  abbrev pub Sound : List N → Partition N D R → Type 0
  Sound used p = Idle digest used p ⊎ Open digest used p

  insert-Core :
      (name : N) (rows : List R) (used : List N) (moving : Option D) (p : Partition N D R)
      → member name used ≡ false
      → Core digest used moving p
      → Core digest (name ∷ used) moving (record p { segments = insert name rows p.segments })
  insert-Core name rows used moving p new core = record {
    keyed = insert-Keyed name rows p.segments core.keyed;
    known = λ n h. ground (
      arith,
      core.known n,
      h,
      lookup-insert name n rows p.segments,
      eN.beq_iff n name,
      eN.beq_iff name n,
    );
    made = λ d out e.
        let m = core.made d out e in
        record {
          names = m.names;
          named = m.named;
          filled = m.filled;
          were_used = λ n h. ground (arith, m.were_used n h);
          gone = elim m.gone [
            | inl h ↦ inl h
            | inr h ↦ inr (λ n k. ground (
              arith,
              h n k,
              m.were_used n k,
              new,
              lookup-insert name n rows p.segments,
              eN.beq_iff name n,
            ))
          ];
        };
  }

  insert-Sound :
      (name : N) (rows : List R) (used : List N) (p : Partition N D R)
      → member name used ≡ false
      → Sound used p
      → Sound (name ∷ used) (record p { segments = insert name rows p.segments })
  insert-Sound name rows used p new (inl idle) =
      inl
        (record { core = insert-Core name rows used none p new idle.core; markers = idle.markers })
  insert-Sound name rows used p new (inr (inl (batch, begun))) =
      let other =
        unused_member name used batch new
          (λ n h. present-used digest used none p n begun.core (begun.taken.present n h)) in
      inr (
        inl (
          batch,
          record {
            core = insert-Core name rows used none p new begun.core;
            markers =
                begun.markers
                ∙ ap (λ xs. (digest batch, some (marker_of digest batch (length xs))) ∷ [])
                    (sym (read_all-insert name rows batch p.segments other));
            absent = begun.absent;
            taken = record {
              filled = begun.taken.filled;
              distinct = begun.taken.distinct;
              present = λ n h.
                  ground (arith, begun.taken.present n h, lookup-insert name n rows p.segments);
            };
          },
        ))
  insert-Sound name rows used p new (inr (inr (batch, w))) = inr (
      inr (
        batch,
        record {
          rows = w.rows;
          core = insert-Core name rows used (some (digest batch)) p new w.core;
          markers = w.markers;
          output = w.output;
          filled = w.filled;
          were_used = λ n h. ground (arith, w.were_used n h);
        },
      ))

  grow-Core :
      (name : N) (used : List N) (moving : Option D) (p : Partition N D R)
      → Core digest used moving p
      → Core digest (name ∷ used) moving p
  grow-Core name used moving p core = record {
    keyed = core.keyed;
    known = λ n h. core.known n (ground (arith, h));
    made = λ d out e.
        let m = core.made d out e in
        record {
          names = m.names;
          named = m.named;
          filled = m.filled;
          were_used = λ n h. ground (arith, m.were_used n h);
          gone = m.gone;
        };
  }

  grow-Sound :
      (name : N) (used : List N) (p : Partition N D R) → Sound used p → Sound (name ∷ used) p
  grow-Sound name used p (inl idle) =
      inl (record { core = grow-Core name used none p idle.core; markers = idle.markers })
  grow-Sound name used p (inr (inl (batch, begun))) = inr (
      inl (
        batch,
        record {
          core = grow-Core name used none p begun.core;
          markers = begun.markers;
          absent = begun.absent;
          taken = begun.taken;
        },
      ))
  grow-Sound name used p (inr (inr (batch, w))) = inr (
      inr (
        batch,
        record {
          rows = w.rows;
          core = grow-Core name used (some (digest batch)) p w.core;
          markers = w.markers;
          output = w.output;
          filled = w.filled;
          were_used = λ n h. ground (arith, w.were_used n h);
        },
      ))

  module _ (injective : (xs ys : List N) → digest xs ≡ digest ys → xs ≡ ys) (test : R → Bool) where
    readable-insert :
        (name : N) (rows : List R) (used names : List N) (moving : Option D) (p : Partition N D R)
        → member name used ≡ false
        → Core digest used moving p
        → member name names ≡ false
        → claimed p p.markers ≡ names
        → claimed (record p { segments = insert name rows p.segments }) p.markers ≡ names
        → readable test (record p { segments = insert name rows p.segments })
          ≡ tally test rows + readable test p
    readable-insert name rows used names moving p new core outside old now = omega (
      arith,
      readable_of digest test (record p { segments = insert name rows p.segments }) names now,
      readable_of digest test p names old,
      total-without-insert test name rows names p.segments outside (core.known name new),
    )

    pub Sound-insert :
        (name : N) (rows : List R) (used : List N) (p : Partition N D R)
        → member name used ≡ false
        → Sound used p
        → readable test (record p { segments = insert name rows p.segments })
          ≡ tally test rows + readable test p
    Sound-insert name rows used p new (inl idle) =
        let q : Partition N D R = record p { segments = insert name rows p.segments } in
        readable-insert name rows used [] none p new idle.core refl
          (claimed_idle digest p idle.markers) (claimed_idle digest q idle.markers)
    Sound-insert name rows used p new (inr (inl (batch, begun))) =
        let q : Partition N D R = record p { segments = insert name rows p.segments } in
        let k = length (read_all batch p.segments) in
        readable-insert name rows used [] none p new begun.core refl
          (claimed_absent digest p batch k begun.absent begun.markers)
          (claimed_absent digest q batch k begun.absent begun.markers)
    Sound-insert name rows used p new (inr (inr (batch, w))) =
        let q : Partition N D R = record p { segments = insert name rows p.segments } in
        readable-insert name rows used batch (some (digest batch)) p new w.core
          (unused_member name used batch new w.were_used)
          (claimed_written digest p batch w.rows w.output w.markers)
          (claimed_written digest q batch w.rows w.output w.markers)

    pub stage-Sound :
        (name : N) (rows : List R) (used : List N) (p : Partition N D R)
        → member name used ≡ false
        → Sound used p
        → Sound (name ∷ used) (stage name rows p)
          × (readable test (stage name rows p) ≡ tally test rows + readable test p)
    unfolding stage
    stage-Sound name [] used p new s = (grow-Sound name used p s, omega arith)
    stage-Sound name (row ∷ rows) used p new s =
        (insert-Sound name (row ∷ rows) used p new s, Sound-insert name (row ∷ rows) used p new s)
