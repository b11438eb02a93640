-- ===== src/Name/Letters.antt =====
-- The names that `create_name` and `follow_path` of ff.c leave in `fn` consist of bytes.
use zephyr_fatfs_aflplusplus.Base.{
  ℕ, zero, suc, ◌+◌, ◌<◌, ◌≡◌, inl, inr, refl, Bool, true, false, List, [], ◌∷◌, arith, ltb, leb,
  ◌==◌, ◌&&◌, ◌||◌, not, Bool-cases, if◌then◌else◌, low_bits,
}
use zephyr_fatfs_aflplusplus.Diskio.{AreBytes, Bytes}
use zephyr_fatfs_aflplusplus.Volume.{put_byte}
use zephyr_fatfs_aflplusplus.Name.{
  Name, named, invalid, Scan, ended, bad, nth, upper_437, ex_cvt, to_upper, strip, scan, finish,
  create_name, is_separator, is_illegal, guard_first, is_end, next_char, ns_last,
}

-- A string of bytes.
abbrev pub AreChars : List ℕ → Type 0
AreChars path = (n : ℕ) → nth path n < 256

unfoldable pub all_bytes : List ℕ → Bool
all_bytes [] = true
all_bytes (c ∷ cs) = ltb c 256 && all_bytes cs

pub nth_bound : (cs : List ℕ) → all_bytes cs ≡ true → AreChars cs
unfolding nth all_bytes
nth_bound [] h n = omega arith
nth_bound (c ∷ cs) h zero = ground arith
nth_bound (c ∷ cs) h (suc n) = nth_bound cs (ground arith) n

upper_437_bytes : all_bytes upper_437 ≡ true
unfolding all_bytes
upper_437_bytes = refl

ex_cvt_bound : (c : ℕ) → c < 256 → ex_cvt c < 256
unfolding ex_cvt
ex_cvt_bound c low = ground (arith, nth_bound upper_437 upper_437_bytes (low_bits c 7))

pub chars_head : (c : ℕ) (cs : List ℕ) → AreChars (c ∷ cs) → c < 256
unfolding nth
chars_head c cs h = h 0

pub chars_tail : (c : ℕ) (cs : List ℕ) → AreChars (c ∷ cs) → AreChars cs
unfolding nth
chars_tail c cs h n = h (suc n)

pub strip_chars : (path : List ℕ) → AreChars path → AreChars (strip path)
unfolding strip
strip_chars [] h = h
strip_chars (c ∷ cs) h = elim (Bool-cases (is_separator c)) [
  | inl skip ↦ rw skip (strip_chars cs (chars_tail c cs h))
  | inr stop ↦ rw stop h
]

-- What a scan leaves: bytes in the name and in the rest of the path.
abbrev Lettered : Scan → Type 0
Lettered (ended c sfn i rest) = AreBytes sfn × AreChars rest
Lettered bad = Unit {0}

pub put_byte-AreBytes : (p : Bytes) (i b : ℕ) → AreBytes p → b < 256 → AreBytes (put_byte p i b)
unfolding put_byte
put_byte-AreBytes p i b h low j = ground (arith, h j)

step-AreBytes :
    (dot : Bool) (c : ℕ) (sfn : Bytes) (i : ℕ)
    → AreBytes sfn
    → c < 256
    → AreBytes (if dot then sfn else put_byte sfn i (to_upper (ex_cvt c)))
step-AreBytes true c sfn i h low = h
step-AreBytes false c sfn i h low =
    put_byte-AreBytes sfn i (to_upper (ex_cvt c)) h (ground (arith, ex_cvt_bound c low))

either-Lettered : (b : Bool) (x y : Scan) → Lettered x → Lettered y → Lettered (if b then x else y)
either-Lettered true x y hx hy = hx
either-Lettered false x y hx hy = hy

guarded : (sfn : Bytes) → AreBytes sfn → AreBytes (guard_first sfn)
unfolding put_byte
guarded sfn h j = ground (arith, h j)

scan-Lettered :
    (path : List ℕ) (sfn : Bytes) (i ni : ℕ)
    → AreChars path
    → AreBytes sfn
    → Lettered (scan path sfn i ni)
unfolding scan
scan-Lettered [] sfn i ni h b = (b, h)
scan-Lettered (c ∷ cs) sfn i ni h b =
    let dot = (c == 0x2E) || leb ni i in
    let tail = chars_tail c cs h in
    let rest =
      scan-Lettered cs (if dot then sfn else put_byte sfn i (to_upper (ex_cvt c)))
        (if dot then 8 else i + 1) (if dot then 11 else ni) tail
        (step-AreBytes dot c sfn i b (chars_head c cs h)) in
    either-Lettered (leb c 0x20) (ended c sfn i cs) _ (b, tail)
      (either-Lettered (is_separator c) (ended c sfn i (strip cs)) _ (b, strip_chars cs tail)
        (either-Lettered dot _ _ (either-Lettered ((ni == 11) || not (c == 0x2E)) bad _ tt rest)
          (either-Lettered (is_illegal (ex_cvt c)) bad _ tt rest)))

-- The name that `create_name` makes, and the rest of the path.
abbrev pub NamedBytes : Name → Type 0
NamedBytes (named fn rest) = AreBytes fn × AreChars rest
NamedBytes invalid = Unit {0}

finish-NamedBytes : (signed_char : Bool) (r : Scan) → Lettered r → NamedBytes (finish signed_char r)
unfolding finish
finish-NamedBytes signed_char bad h = tt
finish-NamedBytes signed_char (ended c sfn i rest) (b, chars) = elim (Bool-cases (i == 0)) [
  | inl none_set ↦ rw none_set tt
  | inr set ↦ rw set (
    put_byte-AreBytes (guard_first sfn) 11
        (if leb c 0x20 || is_end signed_char (next_char rest) then ns_last else 0) (guarded sfn b)
        (ground arith),
    chars,
  )
]

pub create_name-NamedBytes :
    (signed_char : Bool) (path : List ℕ) → AreChars path → NamedBytes (create_name signed_char path)
unfolding create_name
create_name-NamedBytes signed_char path h =
    finish-NamedBytes signed_char (scan path (λ i. 0x20) 0 8)
      (scan-Lettered path (λ i. 0x20) 0 8 h (λ i. omega arith))
