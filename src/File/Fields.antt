-- ===== src/File/Fields.antt =====
-- The bytes that `f_sync` of ff.c stores in the directory entry of a file.
use zephyr_fatfs_aflplusplus.Base.{
  ℕ, ◌+◌, ◌/◌, ◌%◌, ◌^◌, ◌<◌, ◌≤◌, ◌≡◌, ◌≢◌, ◌⊎◌, inl, inr, refl, ap, ◌∙◌, true, arith, bit,
  if◌then◌else◌,
}
use zephyr_fatfs_aflplusplus.Diskio.{AreBytes, Bytes}
use zephyr_fatfs_aflplusplus.Volume.{Geometry, FsType, fat12, fat16, fat32, put_byte}
use zephyr_fatfs_aflplusplus.Window.{ld_word, ld_dword, st_word, st_dword}
use zephyr_fatfs_aflplusplus.Fat.Entry.{max_fatent}
use zephyr_fatfs_aflplusplus.Sync.Fsinfo.{ld_dword-st_dword}
use zephyr_fatfs_aflplusplus.Dir.{ld_clust, st_clust}
use zephyr_fatfs_aflplusplus.Dir.Cluster.{ld_clust-st_clust}
use zephyr_fatfs_aflplusplus.File.{File, fat_time, file_entry}

-- The entry of a file among the bytes of a sector.
pub record IsEntryOf (t : FsType) (f : File) (p : Bytes) : Type 0 where
  pub sclust : ld_clust t p f.dir_ptr ≡ f.sclust
  pub objsize : ld_dword p (f.dir_ptr + 28) ≡ f.objsize
  pub archived : bit (p (f.dir_ptr + 11)) 5 ≡ true

st_word-other : (p : Bytes) (k n i : ℕ) → (i < k) ⊎ (k + 2 ≤ i) → st_word p k n i ≡ p i
unfolding st_word put_byte
st_word-other p k n i out = ground arith

st_dword-other : (p : Bytes) (k n i : ℕ) → (i < k) ⊎ (k + 4 ≤ i) → st_dword p k n i ≡ p i
unfolding st_dword put_byte
st_dword-other p k n i out = ground arith

pub st_word_bytes : (p : Bytes) (k n i : ℕ) → p i < 256 → st_word p k n i < 256
unfolding st_word put_byte
st_word_bytes p k n i h = ground arith

pub st_dword_bytes : (p : Bytes) (k n i : ℕ) → p i < 256 → st_dword p k n i < 256
unfolding st_dword put_byte
st_dword_bytes p k n i h = ground arith

pub st_clust_bytes : (t : FsType) (p : Bytes) (d n i : ℕ) → p i < 256 → st_clust t p d n i < 256
unfolding st_clust
st_clust_bytes fat12 p d n i h = st_word_bytes p (d + 26) (n % 2 ^ 16) i h
st_clust_bytes fat16 p d n i h = st_word_bytes p (d + 26) (n % 2 ^ 16) i h
st_clust_bytes fat32 p d n i h =
    st_word_bytes (st_word p (d + 26) (n % 2 ^ 16)) (d + 20) (n / 2 ^ 16 % 2 ^ 16) i
      (st_word_bytes p (d + 26) (n % 2 ^ 16) i h)

pub ld_dword_bound : (p : Bytes) (i : ℕ) → AreBytes p → ld_dword p i < 2 ^ 32
unfolding ld_dword
ld_dword_bound p i h = ground (arith, h i, h (i + 1), h (i + 2), h (i + 3))

-- The two loads read only their own bytes.
pub ld_dword-same :
    (p q : Bytes) (k : ℕ) → ((i : ℕ) → k ≤ i → i < k + 4 → p i ≡ q i) → ld_dword p k ≡ ld_dword q k
unfolding ld_dword
ld_dword-same p q k same = ground (
  arith,
  same k (omega arith) (omega arith),
  same (k + 1) (omega arith) (omega arith),
  same (k + 2) (omega arith) (omega arith),
  same (k + 3) (omega arith) (omega arith),
)

pub ld_clust-same :
    (t : FsType) (p q : Bytes) (d : ℕ)
    → ((i : ℕ) → (d + 20 ≤ i) × (i < d + 22) ⊎ (d + 26 ≤ i) × (i < d + 28) → p i ≡ q i)
    → ld_clust t p d ≡ ld_clust t q d
unfolding ld_clust ld_word
ld_clust-same fat12 p q d same = ground (
  arith,
  same (d + 26) (inr (omega arith, omega arith)),
  same (d + 27) (inr (omega arith, omega arith)),
)
ld_clust-same fat16 p q d same = ground (
  arith,
  same (d + 26) (inr (omega arith, omega arith)),
  same (d + 27) (inr (omega arith, omega arith)),
)
ld_clust-same fat32 p q d same = ground (
  arith,
  same (d + 20) (inl (omega arith, omega arith)),
  same (d + 21) (inl (omega arith, omega arith)),
  same (d + 26) (inr (omega arith, omega arith)),
  same (d + 27) (inr (omega arith, omega arith)),
)

module _ (g : Geometry) (f : File) (p : Bytes) where
  -- The steps of `file_entry`.
  abbrev marked : Bytes
  marked =
      put_byte p (f.dir_ptr + 11)
        (if bit (p (f.dir_ptr + 11)) 5 then p (f.dir_ptr + 11) else p (f.dir_ptr + 11) + 0x20)

  abbrev linked : Bytes
  linked = st_clust g.fs_type marked f.dir_ptr f.sclust

  abbrev measured : Bytes
  measured = st_dword linked (f.dir_ptr + 28) f.objsize

  abbrev dated : Bytes
  dated = st_dword measured (f.dir_ptr + 22) (fat_time g)

  file_entry-steps : file_entry g f p ≡ st_word dated (f.dir_ptr + 18) 0
  unfolding file_entry
  file_entry-steps = refl

  marked-archived : bit (marked (f.dir_ptr + 11)) 5 ≡ true
  unfolding put_byte
  marked-archived = ground arith

  marked_bytes : ((i : ℕ) → p i < 256) → (i : ℕ) → marked i < 256
  unfolding put_byte
  marked_bytes h i = ground (arith, h i, h (f.dir_ptr + 11))

  marked-other : (i : ℕ) → i ≢ f.dir_ptr + 11 → marked i ≡ p i
  unfolding put_byte
  marked-other i ne = ground arith

  -- What the last two stores leave.
  times-other :
      (i : ℕ)
      → (i < f.dir_ptr + 18) ⊎ ((f.dir_ptr + 26 ≤ i) ⊎ (f.dir_ptr + 20 ≤ i) × (i < f.dir_ptr + 22))
      → file_entry g f p i ≡ measured i
  times-other i out = rw file_entry-steps (
      st_word-other dated (f.dir_ptr + 18) 0 i (ground arith)
      ∙ st_dword-other measured (f.dir_ptr + 22) (fat_time g) i (ground arith))

  measured-objsize : f.objsize < 2 ^ 32 → ld_dword measured (f.dir_ptr + 28) ≡ f.objsize
  measured-objsize low = ld_dword-st_dword linked (f.dir_ptr + 28) f.objsize low

  pub file_entry-IsEntryOf :
      f.sclust < max_fatent g.fs_type
      → f.objsize < 2 ^ 32
      → IsEntryOf g.fs_type f (file_entry g f p)
  file_entry-IsEntryOf small low =
      let d = f.dir_ptr in
      let (read, other) = ld_clust-st_clust g.fs_type marked d f.sclust small in
      let size-other : (i : ℕ) → i < d + 28 → measured i ≡ linked i =
        λ i h. st_dword-other linked (d + 28) f.objsize i (inl h) in
      record {
        sclust =
            ld_clust-same g.fs_type (file_entry g f p) linked d
              (λ i at. times-other i (ground arith) ∙ size-other i (ground arith))
            ∙ read;
        objsize =
            ld_dword-same (file_entry g f p) measured (d + 28)
              (λ i from to. times-other i (ground arith))
            ∙ measured-objsize low;
        archived =
            ap (λ b. bit b 5)
              (times-other (d + 11) (omega arith)
                ∙ size-other (d + 11) (omega arith)
                ∙ other (d + 11) (inl (omega arith)))
            ∙ marked-archived;
      }

  -- The other bytes of the sector stay.
  pub file_entry-other :
      f.sclust < max_fatent g.fs_type
      → (i : ℕ) → (i < f.dir_ptr + 18) ⊎ (f.dir_ptr + 32 ≤ i)
      → i ≢ f.dir_ptr + 11
      → file_entry g f p i ≡ p i
  file_entry-other small i out ne =
      times-other i (ground arith)
      ∙ st_dword-other linked (f.dir_ptr + 28) f.objsize i (ground arith)
      ∙ (ld_clust-st_clust g.fs_type marked f.dir_ptr f.sclust small).1 i (ground arith)
      ∙ marked-other i ne

  pub file_entry_bytes : ((i : ℕ) → p i < 256) → (i : ℕ) → file_entry g f p i < 256
  file_entry_bytes h i = rw file_entry-steps (
      st_word_bytes dated (f.dir_ptr + 18) 0 i (
        st_dword_bytes measured (f.dir_ptr + 22) (fat_time g) i (
          st_dword_bytes linked (f.dir_ptr + 28) f.objsize i
            (st_clust_bytes g.fs_type marked f.dir_ptr f.sclust i (marked_bytes h i)))))
