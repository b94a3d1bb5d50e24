-- ===== src/RawLog/Framing.antt =====
-- storage/raw_log.py: one record, its header and its payload.
use bkk_collector.Base.{
  ℕ, suc, ◌+◌, ◌-◌, ◌^◌, ◌≤◌, ◌<◌, ◌≡◌, refl, arith, [], ◌∷◌, ◌++◌, length, take, length-take,
  take-length-append, drop-length-append,
}
use native.Mathlib.Decide.{dec_lt}
use bkk_collector.RawLog.{
  Bytes, max_compressed_record_bytes, header_size, pack_u32, unpack_u32, pack_double, unpack_double,
  frame, end_of_file, torn, whole, read_frame,
}

unpack-pack_u32 : (n : ℕ) → n < 2 ^ 32 → unpack_u32 (pack_u32 n) ≡ n
unpack-pack_u32 n h = omega arith

unpack-pack_double : (ts : ℕ) → ts < 2 ^ 64 → unpack_double (pack_double ts) ≡ ts
unpack-pack_double ts h = omega arith

pub length-frame : (ts : ℕ) (c : Bytes) → length (frame ts c) ≡ header_size + length c
unfolding frame
length-frame ts c = omega arith

pub read_frame-nil : read_frame [] ≡ end_of_file
unfolding read_frame
read_frame-nil = refl

-- A record that is whole is read back, and the reader stands behind it.
pub read_frame-frame :
    (ts : ℕ) (c rest : Bytes)
    → ts < 2 ^ 64
    → length c ≤ max_compressed_record_bytes
    → read_frame (frame ts c ++ rest) ≡ whole ts c rest
unfolding read_frame frame
read_frame-frame ts c rest hts hc =
    rw
      (
        unpack-pack_u32 (length c) (omega arith),
        unpack-pack_double ts hts,
        take-length-append c rest,
        drop-length-append c rest,
      )
      (ground arith)

read_frame_short :
    (x : ℕ) (rest : Bytes) → length (x ∷ rest) < header_size → read_frame (x ∷ rest) ≡ torn
unfolding read_frame
read_frame_short x rest h = ground (arith, length-take 12 (x ∷ rest))

twelve : ℕ → ℕ
twelve j = suc (suc (suc (suc (suc (suc (suc (suc (suc (suc (suc (suc j)))))))))))

read_frame_cut_body :
    (ts : ℕ) (c : Bytes) (j : ℕ)
    → length c ≤ max_compressed_record_bytes
    → j < length c
    → read_frame (take (twelve j) (frame ts c)) ≡ torn
unfolding read_frame frame twelve
read_frame_cut_body ts c j hc h =
    rw (unpack-pack_u32 (length c) (omega arith))
      (ground (arith, length-take (length c) (take j c), length-take j c))

read_short : (rest : Bytes) → 0 < length rest → length rest < header_size → read_frame rest ≡ torn
read_short [] h0 h = absurd (omega arith)
read_short (x ∷ rest) h0 h = read_frame_short x rest h

-- A record that was cut off is never read as a whole one.
pub read_frame_cut :
    (ts : ℕ) (c : Bytes) (k : ℕ)
    → length c ≤ max_compressed_record_bytes
    → 0 < k
    → k < length (frame ts c)
    → read_frame (take k (frame ts c)) ≡ torn
read_frame_cut ts c k hc h0 h = elim (dec_lt k 12) [
  | yes p ↦
      let size = length-take k (frame ts c) in
      read_short (take k (frame ts c)) (omega (arith, size)) (omega (arith, size))
  | no p ↦
      let e : k ≡ twelve (k - 12) = unfold twelve in omega arith in
      rw e (read_frame_cut_body ts c (k - 12) hc (omega (arith, length-frame ts c)))
]
