-- ===== src/RawLog/Scanning.antt =====
-- storage/raw_log.py: what the scanner and the reader make of a log of whole records with a tail.
use bkk_collector.Base.{
  ℕ, zero, suc, ◌+◌, ◌^◌, ◌≤◌, ◌<◌, ◌≡◌, refl, arith, Bool, true, false, Option, none, some, List,
  [], ◌∷◌, ◌++◌, length, length-append, append_assoc, All, nat_beq, ◌⊎◌, inl, inr, ◌∙◌, ap, sym,
  nat_beq_iff, drop-length-append, is_empty,
}
use mathlib.Core.Path.{ap₂}
use native.Mathlib.Nat.{zero-add}
use bkk_collector.RawLog.{
  Bytes, max_compressed_record_bytes, header_size, frame, torn, read_frame, inflates, scan_result,
  scan_from, scan_raw_log, scan_raw_log_from, iter_from, iter_records,
}
use bkk_collector.RawLog.Framing.{length-frame, read_frame-frame, read_frame-nil}

-- Records as the file holds them: a timestamp and a compressed payload.
pub record Stored : Type 0 where
  pub timestamp : ℕ
  pub payload : Bytes

-- The bytes of whole records, one behind the other.
unfoldable pub encode : List Stored → Bytes
encode [] = []
encode (e ∷ es) = frame e.timestamp e.payload ++ encode es

pub encode-append : (xs ys : List Stored) → encode (xs ++ ys) ≡ encode xs ++ encode ys
unfolding encode
encode-append [] ys = refl
encode-append (x ∷ xs) ys =
    rw (encode-append xs ys)
      (sym (append_assoc (frame x.timestamp x.payload) (encode xs) (encode ys)))

-- A tail that no record starts with: nothing, or the beginning of a record that was cut off.
abbrev pub IsTail : Bytes → Type 0
IsTail tail = (tail ≡ []) ⊎ (read_frame tail ≡ torn)

pub length-le-encode : (es : List Stored) → length es ≤ length (encode es)
unfolding encode
length-le-encode [] = omega arith
length-le-encode (e ∷ es) = omega (
  arith,
  length-le-encode es,
  length-append (frame e.timestamp e.payload) (encode es),
  length-frame e.timestamp e.payload,
)

module _ (decompress : Bytes → Option Bytes) where
  -- A record that the log can hold: its fields fit the header, and its payload decompresses.
  pub record Fits (e : Stored) : Type 0 where
    pub stamp : e.timestamp < 2 ^ 64
    pub size : length e.payload ≤ max_compressed_record_bytes
    pub sound : inflates decompress e.payload ≡ true

  module _ (validate : Bool) (size : ℕ) where
    abbrev StopsAt : Bytes → (ℕ → Bool) → Type 0
    StopsAt tail b =
        (f c v : ℕ)
        → scan_from decompress validate (suc f) size c v tail ≡ some (scan_result c v size (b v))

    scan_from-frame :
        (e : Stored) (rest : Bytes) (f c v : ℕ)
        → Fits e
        → scan_from decompress validate (suc f) size c v (frame e.timestamp e.payload ++ rest)
          ≡ scan_from decompress validate f size (c + 1) (v + header_size + length e.payload) rest
    unfolding scan_from
    scan_from-frame e rest f c v fits =
        rw (read_frame-frame e.timestamp e.payload rest fits.stamp fits.size, scan_from)
          (rw fits.sound (ground arith))

    scan_from-encode :
        (es : List Stored) (tail : Bytes) (b : ℕ → Bool) (fuel count valid_end : ℕ)
        → StopsAt tail b
        → All Fits es
        → length es < fuel
        → scan_from decompress validate fuel size count valid_end (encode es ++ tail)
          ≡ some (
              scan_result
                (count + length es)
                (valid_end + length (encode es))
                size
                (b (valid_end + length (encode es))))
    unfolding encode
    scan_from-encode es tail b zero count valid_end stops fits h = absurd (omega arith)
    scan_from-encode [] tail b (suc fuel) count valid_end stops fits h =
        rw (stops fuel count valid_end) (ground arith)
    scan_from-encode (e ∷ es) tail b (suc fuel) count valid_end stops fits h =
        rw (append_assoc (frame e.timestamp e.payload) (encode es) tail) (
          scan_from-frame e (encode es ++ tail) fuel count valid_end fits.0
          ∙ scan_from-encode es tail b fuel (count + 1) (valid_end + header_size + length e.payload)
              stops fits.1 (omega arith)
          ∙ ap₂ (λ m n. some (scan_result m n size (b n))) (omega arith)
              (omega (
                arith,
                length-append (frame e.timestamp e.payload) (encode es),
                length-frame e.timestamp e.payload,
              )))

    stops-nil : StopsAt [] (λ v. nat_beq v size)
    unfolding scan_from
    stops-nil f c v = rw (read_frame-nil, scan_from)

    stops-torn : (tail : Bytes) → read_frame tail ≡ torn → StopsAt tail (λ v. false)
    unfolding scan_from
    stops-torn tail e f c v = rw (e, scan_from)

  torn_nonempty : (tail : Bytes) → read_frame tail ≡ torn → is_empty tail ≡ false
  torn_nonempty [] e = cc (e, read_frame-nil)
  torn_nonempty (x ∷ tail) e = refl

  scan_results :
      {m n : ℕ} (v size : ℕ) {b c : Bool}
      → m ≡ n
      → b ≡ c
      → some (scan_result m v size b) ≡ some (scan_result n v size c)
  scan_results v size = ap₂ (λ m b. some (scan_result m v size b))

  -- The scanner, from a record boundary `start` of the file: it counts the whole records behind it,
  -- stops at the last boundary, and calls the log clean exactly when nothing is behind that.
  pub scan_from_log :
      (validate : Bool) (start fuel size : ℕ) (es : List Stored) (tail : Bytes)
      → IsTail tail
      → All Fits es
      → length es < fuel
      → size ≡ start + length (encode es) + length tail
      → scan_from decompress validate fuel size 0 start (encode es ++ tail)
        ≡ some (scan_result (length es) (start + length (encode es)) size (is_empty tail))
  scan_from_log validate start fuel size es tail (inl e) fits h hs = rw e (
      scan_from-encode validate size es [] (λ v. nat_beq v size) fuel 0 start
        (stops-nil validate size) fits h
      ∙ scan_results (start + length (encode es)) size (omega arith)
          ((nat_beq_iff (start + length (encode es)) size).1 (omega (arith, ap length e))))
  scan_from_log validate start fuel size es tail (inr e) fits h hs =
      scan_from-encode validate size es tail (λ v. false) fuel 0 start
        (stops-torn validate size tail e) fits h
      ∙ scan_results (start + length (encode es)) size (omega arith) (sym (torn_nonempty tail e))

  -- `scan_raw_log` over records that fit, with nothing or a torn record behind them: it counts the
  -- records, ends the valid bytes behind the last of them, and calls the log clean exactly when
  -- nothing is behind them, with or without validation of the payloads.
  pub scan_raw_log-encode :
      (validate : Bool) (es : List Stored) (tail : Bytes)
      → IsTail tail
      → All Fits es
      → scan_raw_log decompress validate (encode es ++ tail)
        ≡ some (
            scan_result
              (length es)
              (length (encode es))
              (length (encode es ++ tail))
              (is_empty tail))
  unfolding scan_raw_log
  scan_raw_log-encode validate es tail t fits = rw (zero-add (length (encode es))) at (
      scan_from_log validate 0 (suc (length (encode es ++ tail))) (length (encode es ++ tail)) es
        tail t fits (omega (arith, length-le-encode es, length-append (encode es) tail))
        (omega (arith, length-append (encode es) tail)))

  -- `_scan_raw_log_from` at the boundary between any records and records that fit, with nothing or
  -- a torn record behind them: the valid bytes and the cleanness are those of the whole file, and
  -- the count is that of the records behind the boundary.
  pub scan_raw_log_from-encode :
      (xs ys : List Stored) (tail : Bytes)
      → IsTail tail
      → All Fits ys
      → scan_raw_log_from decompress (encode (xs ++ ys) ++ tail) (length (encode xs))
        ≡ some (
            scan_result
              (length ys)
              (length (encode (xs ++ ys)))
              (length (encode (xs ++ ys) ++ tail))
              (is_empty tail))
  unfolding scan_raw_log_from
  scan_raw_log_from-encode xs ys tail t fits =
      rw (encode-append xs ys, append_assoc (encode xs) (encode ys) tail, drop-length-append)
        (rw (length-append (encode xs) (encode ys)) (
          scan_from_log true (length (encode xs)) (suc (length (encode xs ++ (encode ys ++ tail))))
            (length (encode xs ++ (encode ys ++ tail))) ys tail t fits
            (omega (
              arith,
              length-le-encode ys,
              length-append (encode xs) (encode ys ++ tail),
              length-append (encode ys) tail,
            ))
            (omega (
              arith,
              length-append (encode xs) (encode ys ++ tail),
              length-append (encode ys) tail,
            ))))

  -- What the reader gives of a stored record.
  abbrev pub decoded : List Stored → List (ℕ × Bytes)
  decoded [] = []
  decoded (e ∷ es) = elim (decompress e.payload) [
    | none ↦ decoded es
    | some raw ↦ (e.timestamp, raw) ∷ decoded es
  ]

  iter_from-encode :
      (es : List Stored) (tail : Bytes) (fuel : ℕ)
      → IsTail tail
      → All Fits es
      → length es < fuel
      → iter_from decompress fuel (encode es ++ tail) ≡ decoded es
  unfolding iter_from encode
  iter_from-encode es tail zero t fits h = absurd (omega arith)
  iter_from-encode [] tail (suc fuel) (inl e) fits h = rw (e, read_frame-nil, iter_from)
  iter_from-encode [] tail (suc fuel) (inr e) fits h = rw (e, iter_from)
  iter_from-encode (e ∷ es) tail (suc fuel) t fits h =
      rw
        (
          append_assoc (frame e.timestamp e.payload) (encode es) tail,
          read_frame-frame e.timestamp e.payload (encode es ++ tail) fits.0.stamp fits.0.size,
          iter_from,
        )
        (ground (arith, iter_from-encode es tail fuel t fits.1 (omega arith)))

  -- The reader gives every whole record, in order, whatever was cut off behind them.
  pub iter_records-encode :
      (es : List Stored) (tail : Bytes)
      → IsTail tail
      → All Fits es
      → iter_records decompress (encode es ++ tail) ≡ decoded es
  unfolding iter_records
  iter_records-encode es tail t fits =
      iter_from-encode es tail (suc (length (encode es ++ tail))) t fits
        (omega (arith, length-le-encode es, length-append (encode es) tail))
