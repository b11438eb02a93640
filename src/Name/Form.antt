-- ===== src/Name/Form.antt =====
-- `create_name` and `get_fileinfo` of ff.c: the form of short names.
use zephyr_fatfs_aflplusplus.Base.{
  ℕ, zero, suc, ◌+◌, ◌≤◌, ◌<◌, ◌≡◌, ◌≢◌, ◌⊎◌, inl, inr, refl, Bool, false, not, arith, List, [],
  ◌∷◌, leb, ◌==◌, ◌||◌, if◌then◌else◌, Bool-cases, ◌∙◌,
}
use zephyr_fatfs_aflplusplus.Diskio.{Bytes}
use zephyr_fatfs_aflplusplus.Volume.{Fatfs, put_byte}
use zephyr_fatfs_aflplusplus.Dir.{Dir}
use zephyr_fatfs_aflplusplus.Name.{
  is_separator, is_lower, is_illegal, to_upper, ex_cvt, strip, Scan, ended, bad, scan, Name, named,
  invalid, finish, create_name, next_char, ns_last, guard_first, is_end, name_chars, size, Filinfo,
  get_fileinfo,
}

-- No lower-case letter and none of the characters that a short name must not have.
abbrev pub IsSfnChar : ℕ → Type 0
IsSfnChar x = (is_lower x ≡ false) × (is_illegal x ≡ false)

to_upper-IsSfnChar : (x : ℕ) → is_illegal x ≡ false → IsSfnChar (to_upper x)
to_upper-IsSfnChar x h = (ground arith, ground arith)

size-strip : (p : List ℕ) → size (strip p) ≤ size p
unfolding strip
size-strip [] = omega arith
size-strip (c ∷ cs) = ground (arith, size-strip cs)

-- What a scan leaves: a name of the right form, no byte written behind it, and a shorter path.
pub record IsScanned (sfn : Bytes) (start : ℕ) (path : List ℕ) (sfn' : Bytes) (i : ℕ)
    (rest : List ℕ) : Type 0 where
  pub chars : (j : ℕ) → j < 11 → IsSfnChar (sfn' j)
  pub inside : (j : ℕ) → 11 ≤ j → sfn' j ≡ sfn j
  pub shorter : (size rest < size path) ⊎ ((i ≡ start) × (rest ≡ []))

abbrev pub Scanned : Bytes → ℕ → List ℕ → Scan → Type 0
Scanned sfn start path (ended c sfn' i rest) = IsScanned sfn start path sfn' i rest
Scanned sfn start path bad = Unit

put_byte_far : (p : Bytes) (i j b : ℕ) → j ≢ i → put_byte p i b j ≡ p j
unfolding put_byte
put_byte_far p i j b ne = ground arith

put_byte-chars :
    (p : Bytes) (i b : ℕ)
    → ((j : ℕ) → j < 11 → IsSfnChar (p j))
    → IsSfnChar b
    → (j : ℕ) → j < 11
    → IsSfnChar (put_byte p i b j)
unfolding put_byte
put_byte-chars p i b chars h j low = elim (Bool-cases (j == i)) [
  | inl e ↦ rw e h
  | inr e ↦ rw e (chars j low)
]

Scanned-longer :
    (sfn sfn1 : Bytes) (i0 i1 c : ℕ) (cs : List ℕ) (r : Scan)
    → ((j : ℕ) → 11 ≤ j → sfn1 j ≡ sfn j)
    → Scanned sfn1 i1 cs r
    → Scanned sfn i0 (c ∷ cs) r
Scanned-longer sfn sfn1 i0 i1 c cs bad same h = tt
Scanned-longer sfn sfn1 i0 i1 c cs (ended x sfn' i rest) same h = record {
  chars = h.chars;
  inside = λ j far. h.inside j far ∙ same j far;
  shorter = inl (longer h.shorter);
}
  where
    longer : (size rest < size cs) ⊎ ((i ≡ i1) × (rest ≡ [])) → size rest < suc (size cs)
    longer (inl lt) = omega arith
    longer (inr e) = rw e.1 (omega arith)

scan-Scanned :
    (path : List ℕ) (sfn : Bytes) (i ni : ℕ)
    → (i ≤ ni) × (ni ≤ 11)
    → ((j : ℕ) → j < 11 → IsSfnChar (sfn j))
    → Scanned sfn i path (scan path sfn i ni)
unfolding scan
scan-Scanned [] sfn i ni h chars = record {
  chars = chars;
  inside = λ j far. refl;
  shorter = inr (refl, refl);
}
scan-Scanned (c ∷ cs) sfn i ni h chars = elim (Bool-cases (leb c 0x20)) [
  | inl end ↦ rw end (record { chars = chars; inside = λ j far. refl; shorter = inl (omega arith) })
  | inr on ↦ elim (Bool-cases (is_separator c)) [
    | inl sep ↦
        rw (on, sep)
          (record {
            chars = chars;
            inside = λ j far. refl;
            shorter = inl (omega (arith, size-strip cs));
          })
    | inr char ↦ elim (Bool-cases ((c == 0x2E) || leb ni i)) [
      | inl dot ↦ elim (Bool-cases ((ni == 11) || not (c == 0x2E))) [
        | inl wrong ↦ rw (on, char, dot, wrong) tt
        | inr ext ↦
            rw (on, char, dot, ext)
              (Scanned-longer sfn sfn i 8 c cs (scan cs sfn 8 11) (λ j far. refl)
                (scan-Scanned cs sfn 8 11 (omega arith, omega arith) chars))
      ]
      | inr body ↦ elim (Bool-cases (is_illegal (ex_cvt c))) [
        | inl wrong ↦ rw (on, char, body, wrong) tt
        | inr good ↦
            rw (on, char, body, good)
              (Scanned-longer sfn (put_byte sfn i (to_upper (ex_cvt c))) i (i + 1) c cs
                (scan cs (put_byte sfn i (to_upper (ex_cvt c))) (i + 1) ni)
                (λ j far. put_byte_far sfn i j (to_upper (ex_cvt c)) (ground arith))
                (scan-Scanned cs (put_byte sfn i (to_upper (ex_cvt c))) (i + 1) ni (ground arith) (
                  put_byte-chars sfn i (to_upper (ex_cvt c)) chars
                    (to_upper-IsSfnChar (ex_cvt c) good))))
      ]
    ]
  ]
]

-- The bytes of the name are no lower-case letters and no illegal characters, it does not begin like
-- a deleted entry, and the flags are those of the place in the path.
pub record IsNamed (signed_char : Bool) (path : List ℕ) (fn : Bytes) (rest : List ℕ) : Type 0 where
  pub chars : (j : ℕ) → j < 11 → IsSfnChar (fn j)
  pub kept_entry : fn 0 ≢ 0xE5
  pub shorter : size rest < size path
  pub flags : (fn 11 ≡ 0) ⊎ (fn 11 ≡ ns_last)

abbrev pub CreatedName : Bool → List ℕ → Name → Type 0
CreatedName signed_char path (named fn rest) = IsNamed signed_char path fn rest
CreatedName signed_char path invalid = Unit

finish-CreatedName :
    (signed_char : Bool) (path : List ℕ) (r : Scan)
    → Scanned (λ i. 0x20) 0 path r
    → CreatedName signed_char path (finish signed_char r)
unfolding finish put_byte
finish-CreatedName signed_char path bad h = tt
finish-CreatedName signed_char path (ended c sfn i rest) h = elim (Bool-cases (i == 0)) [
  | inl none_set ↦ rw none_set tt
  | inr set ↦ rw set (record {
    chars = λ j low. guarded j low;
    kept_entry = ground arith;
    shorter = ground (arith, h.shorter);
    flags = ground arith;
  })
]
  where
    guarded :
        (j : ℕ)
        → j < 11
        → IsSfnChar (
            put_byte
              (guard_first sfn)
              11
              (if leb c 0x20 || is_end signed_char (next_char rest) then ns_last else 0)
              j)
    guarded j low = (ground (arith, h.chars j low), ground (arith, h.chars j low))

-- A name that `create_name` makes has no lower-case letter and no illegal character, and does not
-- begin with the mark of a deleted entry; byte 11 holds no flag but that of a last segment, and the
-- rest of the path is shorter.
pub create_name-CreatedName :
    (signed_char : Bool) (path : List ℕ)
    → CreatedName signed_char path (create_name signed_char path)
unfolding create_name
create_name-CreatedName signed_char path =
    finish-CreatedName signed_char path (scan path (λ i. 0x20) 0 8)
      (scan-Scanned path (λ i. 0x20) 0 8 (omega arith, omega arith) (λ j low. (refl, refl)))

-- The name that `get_fileinfo` copies has at most 12 bytes, so `fname` has room for it and the 0.
size-name_chars :
    (k : ℕ) (win : Bytes) (dir si : ℕ)
    → size (name_chars k win dir si) ≤ k + (if leb si 8 then 1 else 0)
unfolding name_chars
size-name_chars zero win dir si = omega arith
size-name_chars (suc k) win dir si = ground (arith, size-name_chars k win dir (si + 1))

-- The name that `get_fileinfo` leaves in `fname` has at most 12 bytes, which the array of 13 holds
-- together with the terminating 0.
pub get_fileinfo-fname :
    (dp : Dir) (v : Fatfs) (fno : Filinfo) → size (get_fileinfo dp v fno).fname ≤ 12
unfolding get_fileinfo
get_fileinfo-fname dp v fno = elim (Bool-cases (dp.sect == 0)) [
  | inl end ↦ rw end (omega arith)
  | inr entry ↦ rw entry (size-name_chars 11 v.win dp.dir 0)
]
