-- ===== src/Tests/SpoolCodecTests.antt =====
-- storage/spool_codec.py on rows that repeat a text of 4096 characters.
use Prim.Native.String.{◌++◌}
use bkk_collector.Base.{String, List, [], ◌∷◌, some, ◌≡◌, refl, map, string_eq}
use bkk_collector.Base.Dict.{lookup, insert}
use bkk_collector.SpoolCodec.{
  Row, text, plain, object, other, share_large_strings, restore_shared_strings, share_cell,
  share_string, share_row, share_rows, is_large,
}
use bkk_collector.SpoolCodec.RoundTrip.{restore-share}

abbrev twice : String → String
twice s = s ++ s

abbrev wide : String
wide = twice (twice (twice (twice (twice (twice (twice (twice "0123456789abcdef")))))))

abbrev rows : List Row
rows =
    (("header", text wide) ∷ ("cause", plain "3") ∷ [])
    ∷ (("header", text wide) ∷ ("note", text "short") ∷ [])
    ∷ (("header", object (("kind", other "x") ∷ [])) ∷ [])
    ∷ []

shares_once : (share_large_strings rows).1 ≡ wide ∷ []
unfolding share_large_strings share_rows share_row share_cell share_string is_large lookup insert
shares_once = refl

restore-share_example :
    restore_shared_strings
      (map (λ row. some row) (share_large_strings rows).0)
      (some (map (λ s. some s) (share_large_strings rows).1))
    ≡ some rows
unfolding lookup
restore-share_example = restore-share rows ((tt, (tt, tt)), ((tt, (tt, tt)), ((refl, tt), tt)))
