-- ===== src/SpoolCodec.antt =====
-- bkk_collector/storage/spool_codec.py: large strings kept once beside the rows of a spool segment.
-- A JSON value is told apart as far as the code does: a string, an object, or something else; the
-- values inside an object are whole numbers or something else.
pub mod RoundTrip
use Prim.Native.String.{count}
use mathlib.Core.Option
use bkk_collector.Base.{
  ℕ, ◌+◌, String, Bool, true, false, not, ◌&&◌, ◌||◌, Option, none, some, List, [], ◌∷◌, ◌++◌, leb,
  ltb, if◌then◌else◌, length, get_elem?, all, is_empty, ◌==◌, string_eq, map,
}
use bkk_collector.Base.Int.{ℤ, pos, negsuc}
use bkk_collector.Base.Dict.{Dict, lookup, insert, has_key, keys}

pub data Item : Type 0 where
  whole : ℤ → Item
  other : String → Item

pub data Cell : Type 0 where
  text : String → Cell
  object : Dict String Item → Cell
  plain : String → Cell

abbrev pub Row : Type 0
Row = Dict String Cell

abbrev pub shared_string_min_chars : ℕ
shared_string_min_chars = 4096

abbrev pub reference_key : String
reference_key = "$shared_string"

abbrev pub reference : ℕ → Cell
reference index = object ((reference_key, whole (pos index)) ∷ [])

-- The locals `indices` and `strings` of `share_large_strings`.
pub record Pool : Type 0 where
  pub indices : Dict String ℕ
  pub strings : List String

unfoldable pub is_large : String → Bool
is_large value = leb shared_string_min_chars (count value)

-- The two branches behind `indices.get(value)`.
unfoldable pub share_found : Pool → String → Option ℕ → Cell × Pool
share_found pool value (some index) = (reference index, pool)
share_found pool value none = (
  reference (length pool.strings),
  record {
    indices = insert value (length pool.strings) pool.indices;
    strings = pool.strings ++ value ∷ [];
  },
)

unfoldable pub share_string : Pool → String → Cell × Pool
unfolding share_found
share_string pool value = share_found pool value (lookup value pool.indices)

unfoldable pub share_cell : Pool → Cell → Cell × Pool
share_cell pool (text value) =
    if is_large value then share_string pool value else (text value, pool)
share_cell pool (object fields) = (object fields, pool)
share_cell pool (plain value) = (plain value, pool)

-- The inner loop: the new item of a row.
unfoldable pub share_row : Pool → Row → Row × Pool
share_row pool [] = ([], pool)
share_row pool ((field, value) ∷ fields) =
    let (cell, pool') = share_cell pool value in
    let (item, pool'') = share_row pool' fields in ((field, cell) ∷ item, pool'')

unfoldable pub share_rows : Pool → List Row → List Row × Pool
share_rows pool [] = ([], pool)
share_rows pool (row ∷ rows) =
    let (item, pool') = share_row pool row in
    let (encoded, pool'') = share_rows pool' rows in (item ∷ encoded, pool'')

abbrev pub empty_pool : Pool
empty_pool = record { indices = []; strings = [] }

-- `return (encoded, strings) if strings else (rows, [])`
unfoldable pub shared_or_same : List Row → List Row → List String → List Row × List String
shared_or_same rows encoded [] = (rows, [])
shared_or_same rows encoded (s ∷ strings) = (encoded, s ∷ strings)

-- `share_large_strings`
unfoldable pub share_large_strings : List Row → List Row × List String
unfolding shared_or_same
share_large_strings rows =
    let (encoded, pool) = share_rows empty_pool rows in shared_or_same rows encoded pool.strings

-- The string that an object with the reference key stands for; `none` is the ValueError.
unfoldable pub dereference : List String → Dict String Item → Option Cell
dereference strings fields =
    if not (all (λ key. key == reference_key) (keys fields))
    then none
    else elim (lookup reference_key fields) [
      | none ↦ none
      | some item ↦ elim item [
        | other _ ↦ none
        | whole z ↦ elim z [
          | negsuc _ ↦ none
          | pos index ↦ Option.map text (get_elem? strings index)
        ]
      ]
    ]

unfoldable pub restore_cell : List String → Cell → Option Cell
restore_cell strings (object fields) =
    if has_key reference_key fields then dereference strings fields else some (object fields)
restore_cell strings (text value) = some (text value)
restore_cell strings (plain value) = some (plain value)

unfoldable pub restore_row : List String → Row → Option Row
restore_row strings [] = some []
restore_row strings ((field, value) ∷ fields) = elim (restore_cell strings value) [
  | none ↦ none
  | some cell ↦ Option.map (λ row. (field, cell) ∷ row) (restore_row strings fields)
]

-- The rows as JSON gives them: `none` is a row that is no object.
unfoldable pub restore_rows : List String → List (Option Row) → Option (List Row)
restore_rows strings [] = some []
restore_rows strings (none ∷ rows) = none
restore_rows strings (some row ∷ rows) = elim (restore_row strings row) [
  | none ↦ none
  | some row' ↦ Option.map (λ rest. row' ∷ rest) (restore_rows strings rows)
]

-- The table as JSON gives it: `none` is no list, and inside it a value that is no string.
unfoldable pub all_strings : List (Option String) → Option (List String)
all_strings [] = some []
all_strings (none ∷ rest) = none
all_strings (some value ∷ rest) = Option.map (λ values. value ∷ values) (all_strings rest)

-- `restore_shared_strings`; `none` is a ValueError.
unfoldable pub restore_shared_strings :
    List (Option Row) → Option (List (Option String)) → Option (List Row)
restore_shared_strings rows none = none
restore_shared_strings rows (some table) = elim (all_strings table) [
  | none ↦ none
  | some strings ↦ restore_rows strings rows
]
