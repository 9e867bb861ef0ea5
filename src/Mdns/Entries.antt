-- ===== src/Mdns/Entries.antt =====
-- The strings of a TXT record come back as they were put in.
use cast_mirror.Prelude.{
  ℕ, zero, suc, ◌+◌, ◌≤◌, ◌<◌, true, ◌&&◌, ltb, leb, ◌≡◌, refl, sym, ap, ◌∙◌, List, [], ◌∷◌, ◌++◌,
  append_assoc, some, length, length-append, All, arith,
}
use cast_mirror.Prelude.Reads.{read8, read_bytes}
use cast_mirror.Mdns.{txt_strings}

-- The data of a TXT record: each string behind its length.
unfoldable pub txt_data : List (List ℕ) → List ℕ
txt_data [] = []
txt_data (s ∷ strings) = length s ∷ s ++ txt_data strings

abbrev pub IsString : List ℕ → Type 0
IsString s = (0 < length s) × (length s < 256)

read8_at : (xs : List ℕ) (b : ℕ) (ys : List ℕ) → read8 (xs ++ b ∷ ys) (length xs) ≡ some b
unfolding read8
read8_at [] b ys = refl
read8_at (x ∷ xs) b ys = read8_at xs b ys

read_bytes_at :
    (xs s ys : List ℕ) (i : ℕ) → i ≡ length xs → read_bytes (xs ++ (s ++ ys)) i (length s) ≡ some s
unfolding read_bytes
read_bytes_at xs [] ys i e = refl
read_bytes_at xs (b ∷ s) ys i e =
    let byte : read8 (xs ++ b ∷ (s ++ ys)) i ≡ some b = rw e (read8_at xs b (s ++ ys)) in
    let rest : read_bytes (xs ++ b ∷ (s ++ ys)) (i + 1) (length s) ≡ some s =
      ap (λ l. read_bytes l (i + 1) (length s)) (sym (append_assoc xs (b ∷ []) (s ++ ys)))
      ∙ read_bytes_at (xs ++ b ∷ []) s ys (i + 1) (omega (arith, length-append xs (b ∷ []))) in
    rw (read_bytes, byte, rest) refl

regroup :
    (xs : List ℕ) (l : ℕ) (s rest ys : List ℕ)
    → xs ++ l ∷ ((s ++ rest) ++ ys) ≡ (xs ++ l ∷ s) ++ (rest ++ ys)
regroup [] l s rest ys = ap (◌∷◌ l) (append_assoc s rest ys)
regroup (x ∷ xs) l s rest ys = ap (◌∷◌ x) (regroup xs l s rest ys)

txt_step :
    (bytes : List ℕ) (n pos end l : ℕ) (entry : List ℕ) (more : List (List ℕ))
    → ltb pos end ≡ true
    → read8 bytes pos ≡ some l
    → (ltb 0 l && leb (pos + 1 + l) end) ≡ true
    → read_bytes bytes (pos + 1) l ≡ some entry
    → txt_strings bytes n (pos + 1 + l) end ≡ some more
    → txt_strings bytes (suc n) pos end ≡ some (entry ∷ more)
unfolding txt_strings
txt_step bytes n pos end l entry more inside byte whole read rest =
    rw (txt_strings, inside, byte, whole, read, rest) refl

-- A TXT record that holds strings of 1 to 255 bytes, wherever it stands in a datagram, is read back as these strings,
-- with a count of rounds that is at least the length of the record.
pub txt_strings_at :
    (strings : List (List ℕ)) (xs ys : List ℕ) (n : ℕ)
    → All IsString strings
    → length (txt_data strings) ≤ n
    → txt_strings
        (xs ++ (txt_data strings ++ ys))
        n
        (length xs)
        (length xs + length (txt_data strings))
      ≡ some strings
unfolding txt_data txt_strings
txt_strings_at [] xs ys zero h fits = ground arith
txt_strings_at [] xs ys (suc n) h fits = ground arith
txt_strings_at (s ∷ strings) xs ys zero h fits = absurd (omega arith)
txt_strings_at (s ∷ strings) xs ys (suc n) h fits =
    let rest = txt_data strings in
    let bytes = xs ++ (length s ∷ ((s ++ rest) ++ ys)) in
    let end = length xs + suc (length (s ++ rest)) in
    let front = xs ++ length s ∷ s in
    let len = length-append s rest in
    let moved = regroup xs (length s) s rest ys in
    let here : length front ≡ length xs + 1 + length s =
      length-append xs (length s ∷ s) ∙ omega arith in
    let at_end : end ≡ length front + length rest = omega (arith, len, here) in
    let tail : txt_strings bytes n (length xs + 1 + length s) end ≡ some strings =
      ap (λ b. txt_strings b n (length xs + 1 + length s) end) moved
      ∙ ap (λ p. txt_strings (front ++ (rest ++ ys)) n p end) (sym here)
      ∙ ap (txt_strings (front ++ (rest ++ ys)) n (length front)) at_end
      ∙ txt_strings_at strings front ys n h.1 (omega (arith, len)) in
    let body : read_bytes bytes (length xs + 1) (length s) ≡ some s =
      ap (λ b. read_bytes b (length xs + 1) (length s))
        (moved
          ∙ append_assoc xs (length s ∷ s) (rest ++ ys)
          ∙ sym (append_assoc xs (length s ∷ []) (s ++ (rest ++ ys))))
      ∙ read_bytes_at (xs ++ length s ∷ []) s (rest ++ ys) (length xs + 1)
          (omega (arith, length-append xs (length s ∷ []))) in
    txt_step bytes n (length xs) end (length s) s strings (ground (arith, len))
      (read8_at xs (length s) ((s ++ rest) ++ ys)) (ground (arith, len)) body tail
