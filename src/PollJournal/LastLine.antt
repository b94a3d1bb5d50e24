-- ===== src/PollJournal/LastLine.antt =====
-- storage/poll_journal.py, `_last_line_start` finds the final line.
use bkk_collector.Base.{
  ℕ, zero, suc, ◌+◌, ◌-◌, ◌≤◌, ◌≡◌, ◌≢◌, refl, arith, sym, ap, ◌∙◌, [], ◌∷◌, ◌++◌, Option, none,
  some, take, drop, length, get_elem?, All, option_eq, nat_eq, ◌⊎◌, inl, inr, length-append,
  length-take, take-length-append, append-nil, append_assoc, Option-cases,
}
use bkk_collector.RawLog.{Bytes}
use bkk_collector.PollJournal.{newline, block_bytes, rfind, search, search_end, last_line_start}

abbrev shifted : ℕ → Option ℕ → Option ℕ → Option ℕ
shifted n other none = other
shifted n other (some i) = some (n + i)

shifted_zero : (o : Option ℕ) → o ≡ shifted 0 none o
shifted_zero none = refl
shifted_zero (some i) = ap some (omega arith)

rfind-append :
    (b : ℕ) (xs ys : Bytes) → rfind b (xs ++ ys) ≡ shifted (length xs) (rfind b xs) (rfind b ys)
unfolding rfind
rfind-append b [] ys = shifted_zero (rfind b ys)
rfind-append b (x ∷ xs) ys = ground (arith, rfind-append b xs ys)

-- The start of the last line of a text, by one pass over all of it.
abbrev after : Option ℕ → ℕ
after none = 0
after (some i) = i + 1

take_nil : (n : ℕ) → take {A = ℕ} n [] ≡ []
take_nil zero = refl
take_nil (suc n) = refl

take_split : (m n : ℕ) (xs : Bytes) → m ≤ n → take n xs ≡ take m xs ++ take (n - m) (drop m xs)
take_split zero n xs h = ap (λ k. take k xs) (omega arith)
take_split (suc m) zero xs h = absurd (omega arith)
take_split (suc m) (suc n) [] h = sym (take_nil (suc n - suc m))
take_split (suc m) (suc n) (x ∷ xs) h =
    ap (λ ys. x ∷ ys) (take_split m n xs (omega arith))
    ∙ ap (λ k. x ∷ take m xs ++ take k (drop m xs)) (omega arith)

-- A block at the end decides, where it has a newline.
rfind_block :
    (start n : ℕ) (file : Bytes)
    → start ≤ n
    → n ≤ length file
    → rfind newline (take n file)
      ≡ shifted start
          (rfind newline (take start file))
          (rfind newline (take (n - start) (drop start file)))
rfind_block start n file h size =
    ap (rfind newline) (take_split start n file h)
    ∙ rfind-append newline (take start file) (take (n - start) (drop start file))
    ∙ ap
        (λ k.
          shifted k (rfind newline (take start file))
            (rfind newline (take (n - start) (drop start file))))
        (omega (arith, length-take start file))

search_found :
    (fuel : ℕ) (file : Bytes) (n i : ℕ)
    → rfind newline (take (suc n - (suc n - block_bytes)) (drop (suc n - block_bytes) file))
      ≡ some i
    → search (suc fuel) file (suc n) ≡ some (suc n - block_bytes + i + 1)
unfolding search
search_found fuel file n i h = ground arith

search_on :
    (fuel : ℕ) (file : Bytes) (n : ℕ)
    → rfind newline (take (suc n - (suc n - block_bytes)) (drop (suc n - block_bytes) file)) ≡ none
    → search (suc fuel) file (suc n) ≡ search fuel file (suc n - block_bytes)
unfolding search
search_on fuel file n h = ground arith

search-rfind :
    (fuel : ℕ) (file : Bytes) (n : ℕ)
    → n ≤ fuel
    → n ≤ length file
    → search fuel file n ≡ some (after (rfind newline (take n file)))
search-rfind fuel file zero h size = unfold search rfind in refl
search-rfind zero file (suc n) h size = absurd (omega arith)
search-rfind (suc fuel) file (suc n) h size =
    let start = suc n - block_bytes in
    let block = rfind_block start (suc n) file (omega arith) size in
    elim (Option-cases (rfind newline (take (suc n - start) (drop start file)))) [
      | inl e ↦
          search_on fuel file n e
          ∙ search-rfind fuel file start (omega arith) (omega arith)
          ∙ ap (λ o. some (after o))
              (sym (block ∙ ap (shifted start (rfind newline (take start file))) e))
      | inr (i, e) ↦
          search_found fuel file n i e
          ∙ ap (λ o. some (after o))
              (sym (block ∙ ap (shifted start (rfind newline (take start file))) e))
    ]

-- A text without a newline.
abbrev pub IsLine : Bytes → Type 0
IsLine = All (λ b. b ≢ newline)

rfind_line : (line : Bytes) → IsLine line → rfind newline line ≡ none
unfolding rfind
rfind_line [] h = refl
rfind_line (b ∷ line) (h, hs) = ground (arith, rfind_line line hs)

-- Whole lines: nothing, or a text whose last byte is a newline.
pub data Lines : Bytes → Type 0 where
  no_lines : {text : Bytes} → text ≡ [] → Lines text
  ends : {text : Bytes} (body : Bytes) → text ≡ body ++ newline ∷ [] → Lines text

after-rfind-Lines :
    (text line : Bytes)
    → Lines text
    → IsLine line
    → after (rfind newline (text ++ line)) ≡ length text
after-rfind-Lines text line (no_lines e) h = rw e (ap after (rfind_line line h))
after-rfind-Lines text line (ends body e) h =
    ap after (
      rfind-append newline text line
      ∙ ap (shifted (length text) (rfind newline text)) (rfind_line line h)
      ∙ ap (rfind newline) e
      ∙ rfind-append newline body (newline ∷ []))
    ∙ unfold rfind in omega (arith, ap length e, length-append body (newline ∷ []))

get_elem?-last : (xs : Bytes) (x : ℕ) → get_elem? (xs ++ x ∷ []) (length xs) ≡ some x
get_elem?-last [] x = refl
get_elem?-last (y ∷ xs) x = get_elem?-last xs x

minus_one : (n : ℕ) → n + 1 - 1 ≡ n
minus_one n = omega arith

search_end-newline :
    (body : Bytes) → search_end (body ++ newline ∷ []) (length (body ++ newline ∷ [])) ≡ length body
unfolding search_end
search_end-newline body =
    rw (length-append body (newline ∷ []), minus_one (length body), get_elem?-last body newline)
      refl

search_end-other :
    (body : Bytes) (b : ℕ)
    → b ≢ newline
    → search_end (body ++ b ∷ []) (length (body ++ b ∷ [])) ≡ length (body ++ b ∷ [])
unfolding search_end
search_end-other body b h =
    rw (length-append body (b ∷ []), minus_one (length body), get_elem?-last body b) (ground arith)

-- A line that is not empty has a last byte.
last_byte :
    (line : Bytes)
    → line ≢ []
    → IsLine line
    → (front : Bytes) × (b : ℕ) × (line ≡ front ++ b ∷ []) × (b ≢ newline)
last_byte [] full h = absurd (full refl)
last_byte (b ∷ []) full (h, hs) = ([], b, refl, h)
last_byte (b ∷ c ∷ line) full (h, hs) =
    let (front, last, e, other) = last_byte (c ∷ line) (λ e. cc e) hs in
    (b ∷ front, last, ap (λ xs. b ∷ xs) e, other)

last_line_start_found :
    (file body rest : Bytes)
    → file ≡ body ++ rest
    → search_end file (length file) ≡ length body
    → last_line_start file (length file) ≡ some (after (rfind newline body))
unfolding last_line_start
last_line_start_found file body rest e at_end =
    let size : length body ≤ length file = omega (arith, ap length e, length-append body rest) in
    ap (search (length file) file) at_end
    ∙ search-rfind (length file) file (length body) size size
    ∙ ap (λ xs. some (after (rfind newline (take (length body) xs)))) e
    ∙ ap (λ xs. some (after (rfind newline xs))) (take-length-append body rest)

-- The final line of a journal is found from its end, block by block, whatever its length: behind
-- whole lines it starts where they end, with or without its own separator. The loop ends.
pub last_line_start-Lines :
    (text line separator : Bytes)
    → Lines text
    → IsLine line
    → (separator ≡ newline ∷ []) ⊎ ((separator ≡ []) × (line ≢ []))
    → last_line_start (text ++ line ++ separator) (length (text ++ line ++ separator))
      ≡ some (length text)
last_line_start-Lines text line separator lines h (inl e) =
    last_line_start_found (text ++ line ++ separator) (text ++ line) separator refl
      (rw e (search_end-newline (text ++ line)))
    ∙ ap some (after-rfind-Lines text line lines h)
last_line_start-Lines text line separator lines h (inr (e, full)) =
    let (front, b, split, other) = last_byte line full h in
    last_line_start_found (text ++ line ++ separator) (text ++ line) separator refl (
      rw (e, append-nil (text ++ line), split, sym (append_assoc text front (b ∷ [])))
        (search_end-other (text ++ front) b other))
    ∙ ap some (after-rfind-Lines text line lines h)
