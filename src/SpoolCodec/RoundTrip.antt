-- ===== src/SpoolCodec/RoundTrip.antt =====
-- storage/spool_codec.py: restoring what was shared gives the rows back.
use bkk_collector.Base.{
  ℕ, zero, suc, String, false, Option, none, some, List, [], ◌∷◌, ◌++◌, ◌≡◌, refl, arith,
  if◌then◌else◌, length, get_elem?, ◌==◌, string_eq, ==_iff, map, inl, inr, Bool-cases, ◌∙◌, ap,
  sym, append_assoc, append-nil,
}
use bkk_collector.Base.Dict.{lookup, insert, has_key, lookup-insert}
use bkk_collector.SpoolCodec.{
  Cell, text, object, plain, Row, Pool, reference, reference_key, is_large, share_found,
  share_string, share_cell, share_row, share_rows, empty_pool, share_large_strings, shared_or_same,
  dereference, restore_cell, restore_row, restore_rows, all_strings, restore_shared_strings,
}

-- A row that the program shares holds no object with the reserved key.
abbrev pub IsPlain : Cell → Type 0
IsPlain (object fields) = has_key reference_key fields ≡ false
IsPlain (text value) = Unit
IsPlain (plain value) = Unit

abbrev pub PlainRow : Row → Type 0
PlainRow [] = Unit
PlainRow ((field, value) ∷ fields) = IsPlain value × PlainRow fields

-- Every index of the pool is the place of its string.
abbrev Indexes : Pool → Type 0
Indexes pool =
    (value : String) (index : ℕ)
    → lookup value pool.indices ≡ some index
    → get_elem? pool.strings index ≡ some value

-- The strings of one pool continue those of another.
abbrev Extends : Pool → List String → Type 0
Extends pool strings = (more : List String) × (strings ≡ pool.strings ++ more)

module _ {A : Type 0} where
  get_elem?-append :
      (xs ys : List A) (i : ℕ) (a : A) → get_elem? xs i ≡ some a → get_elem? (xs ++ ys) i ≡ some a
  get_elem?-append [] ys i a h = cc
  get_elem?-append (x ∷ xs) ys zero a h = h
  get_elem?-append (x ∷ xs) ys (suc i) a h = get_elem?-append xs ys i a h

  get_elem?-length : (xs ys : List A) (a : A) → get_elem? (xs ++ a ∷ ys) (length xs) ≡ some a
  get_elem?-length [] ys a = refl
  get_elem?-length (x ∷ xs) ys a = get_elem?-length xs ys a

restore-reference :
    (strings : List String) (index : ℕ) (value : String)
    → get_elem? strings index ≡ some value
    → restore_cell strings (reference index) ≡ some (text value)
unfolding restore_cell dereference lookup
restore-reference strings index value h = rw h

-- One step of the sharing: the pool stays sound and grows at its end only, and under every later
-- table what was written restores.
abbrev Shares : Pool → Pool → (List String → Type 0) → Type 0
Shares pool pool' Restores =
    Indexes pool'
    × Extends pool pool'.strings
    × ((strings : List String) → Extends pool' strings → Restores strings)

Extends-refl : (pool : Pool) → Extends pool pool.strings
Extends-refl pool = ([], sym (append-nil pool.strings))

Extends-trans :
    (a b : Pool) (strings : List String)
    → Extends a b.strings
    → Extends b strings
    → Extends a strings
Extends-trans a b strings (xs, p) (ys, q) =
    (xs ++ ys, q ∙ ap (λ zs. zs ++ ys) p ∙ append_assoc a.strings xs ys)

Extends-get_elem? :
    (pool : Pool) (strings : List String) (index : ℕ) (value : String)
    → Extends pool strings
    → get_elem? pool.strings index ≡ some value
    → get_elem? strings index ≡ some value
Extends-get_elem? pool strings index value (more, e) h =
    rw e (get_elem?-append pool.strings more index value h)

Indexes-fresh :
    (pool : Pool) (value : String)
    → Indexes pool
    → Indexes (record {
      indices = insert value (length pool.strings) pool.indices;
      strings = pool.strings ++ value ∷ [];
    })
Indexes-fresh pool value sound v i h =
    let h' : (if value == v then some (length pool.strings) else lookup v pool.indices) ≡ some i =
      sym (lookup-insert value v (length pool.strings) pool.indices) ∙ h in
    elim (Bool-cases (value == v)) [
      | inl same ↦ ground (arith, ==_iff value v, get_elem?-length pool.strings [] value)
      | inr differs ↦ get_elem?-append pool.strings (value ∷ []) i v (sound v i (ground arith))
    ]

share_found-Shares :
    (pool : Pool) (value : String) (found : Option ℕ)
    → lookup value pool.indices ≡ found
    → Indexes pool
    → Shares pool
        (share_found pool value found).1
        (λ strings. restore_cell strings (share_found pool value found).0 ≡ some (text value))
unfolding share_found
share_found-Shares pool value (some index) known sound = (
  sound,
  Extends-refl pool,
  λ strings more.
      restore-reference strings index value
        (Extends-get_elem? pool strings index value more (sound value index known)),
)
share_found-Shares pool value none fresh sound = (
  Indexes-fresh pool value sound,
  (value ∷ [], refl),
  λ strings (more, e). restore-reference strings (length pool.strings) value (
      rw (e, append_assoc pool.strings (value ∷ []) more)
        (get_elem?-length pool.strings more value)),
)

share_cell-Shares :
    (pool : Pool) (cell : Cell)
    → IsPlain cell
    → Indexes pool
    → Shares pool
        (share_cell pool cell).1
        (λ strings. restore_cell strings (share_cell pool cell).0 ≡ some cell)
unfolding share_cell
share_cell-Shares pool (object fields) h sound =
    (sound, Extends-refl pool, λ strings _. unfold restore_cell in rw h)
share_cell-Shares pool (plain value) h sound =
    (sound, Extends-refl pool, λ strings _. unfold restore_cell in refl)
share_cell-Shares pool (text value) h sound = elim (Bool-cases (is_large value)) [
  | inl large ↦
      rw large (
        unfold share_string in share_found-Shares pool value (lookup value pool.indices) refl sound)
  | inr small ↦ rw small (sound, Extends-refl pool, λ strings _. unfold restore_cell in refl)
]

share_row-Shares :
    (pool : Pool) (row : Row)
    → PlainRow row
    → Indexes pool
    → Shares pool
        (share_row pool row).1
        (λ strings. restore_row strings (share_row pool row).0 ≡ some row)
unfolding share_row restore_row
share_row-Shares pool [] h sound = (sound, Extends-refl pool, λ strings _. refl)
share_row-Shares pool ((field, cell) ∷ fields) (h, hs) sound =
    let (sound', grows, restores) = share_cell-Shares pool cell h sound in
    let (sound'', grows', restores') = share_row-Shares (share_cell pool cell).1 fields hs sound' in
    (
      sound'',
      Extends-trans pool (share_cell pool cell).1 _ grows grows',
      λ strings more. ground (
        arith,
        restores strings (Extends-trans (share_cell pool cell).1 _ strings grows' more),
        restores' strings more,
      ),
    )

abbrev pub AllPlain : List Row → Type 0
AllPlain [] = Unit
AllPlain (row ∷ rows) = PlainRow row × AllPlain rows

share_rows-Shares :
    (pool : Pool) (rows : List Row)
    → AllPlain rows
    → Indexes pool
    → Shares pool (share_rows pool rows).1 (λ strings.
      restore_rows strings (map (λ row. some row) (share_rows pool rows).0) ≡ some rows)
unfolding share_rows restore_rows
share_rows-Shares pool [] h sound = (sound, Extends-refl pool, λ strings _. refl)
share_rows-Shares pool (row ∷ rows) (h, hs) sound =
    let (sound', grows, restores) = share_row-Shares pool row h sound in
    let (sound'', grows', restores') = share_rows-Shares (share_row pool row).1 rows hs sound' in
    (
      sound'',
      Extends-trans pool (share_row pool row).1 _ grows grows',
      λ strings more. ground (
        arith,
        restores strings (Extends-trans (share_row pool row).1 _ strings grows' more),
        restores' strings more,
      ),
    )

all_strings-some : (strings : List String) → all_strings (map (λ s. some s) strings) ≡ some strings
unfolding all_strings
all_strings-some [] = refl
all_strings-some (s ∷ strings) = ground (arith, all_strings-some strings)

restore_plain_cell : (cell : Cell) → IsPlain cell → restore_cell [] cell ≡ some cell
unfolding restore_cell
restore_plain_cell (object fields) h = rw h
restore_plain_cell (text value) h = refl
restore_plain_cell (plain value) h = refl

restore-PlainRow : (row : Row) → PlainRow row → restore_row [] row ≡ some row
unfolding restore_row
restore-PlainRow [] h = refl
restore-PlainRow ((field, cell) ∷ fields) (h, hs) =
    ground (arith, restore_plain_cell cell h, restore-PlainRow fields hs)

restore_plain_rows :
    (rows : List Row) → AllPlain rows → restore_rows [] (map (λ row. some row) rows) ≡ some rows
unfolding restore_rows
restore_plain_rows [] h = refl
restore_plain_rows (row ∷ rows) (h, hs) =
    ground (arith, restore-PlainRow row h, restore_plain_rows rows hs)

restore-shared_or_same :
    (rows encoded : List Row) (strings : List String)
    → AllPlain rows
    → restore_rows strings (map (λ row. some row) encoded) ≡ some rows
    → let (result, table) = shared_or_same rows encoded strings in
      restore_shared_strings (map (λ row. some row) result) (some (map (λ s. some s) table))
      ≡ some rows
unfolding restore_shared_strings shared_or_same
restore-shared_or_same rows encoded [] h e = unfold all_strings in restore_plain_rows rows h
restore-shared_or_same rows encoded (s ∷ strings) h e =
    rw (all_strings-some (s ∷ strings), restore_shared_strings) e

Indexes-empty : Indexes empty_pool
unfolding lookup
Indexes-empty value index h = cc

-- Sharing loses nothing: what a segment holds of rows without the reserved key, rows and table,
-- restores to the rows, whatever is large and however often it repeats.
pub restore-share :
    (rows : List Row)
    → AllPlain rows
    → let (encoded, strings) = share_large_strings rows in
      restore_shared_strings (map (λ row. some row) encoded) (some (map (λ s. some s) strings))
      ≡ some rows
unfolding share_large_strings
restore-share rows h =
    let (encoded, pool) = share_rows empty_pool rows in
    let (sound, grows, restores) = share_rows-Shares empty_pool rows h Indexes-empty in
    restore-shared_or_same rows encoded pool.strings h (restores pool.strings (Extends-refl pool))
