-- ===== src/Mount/Outcome.antt =====
-- The outcomes of `mount_volume` of ff.c.
use zephyr_fatfs_aflplusplus.Base.{
  ℕ, ◌+◌, ◌≡◌, ◌⊎◌, inl, inr, refl, Bool, true, false, none, some, ◌==◌, Bool-cases, Option-cases,
  u16, arith, ap, sym, ◌∙◌, subst,
}
use zephyr_fatfs_aflplusplus.Diskio.{Bytes, AreBytes, disk_status, disk_initialize}
use zephyr_fatfs_aflplusplus.Volume.{Geometry, Fatfs, Fresult, Out, disk_err, no_filesystem}
use zephyr_fatfs_aflplusplus.Volume.Ends.{Ends, returns, fails}
use zephyr_fatfs_aflplusplus.Boot.{read_bpb, load_bpb}
use zephyr_fatfs_aflplusplus.Mount.{
  Mount, Mounted, mounted, refused, mount_found, register, mount_volume,
}
use zephyr_fatfs_aflplusplus.Mount.Found.{sector, IsBoot, IsBoot-unique}
use zephyr_fatfs_aflplusplus.Mount.Locate.{IsOver, Located, find_volume-Located}
use zephyr_fatfs_aflplusplus.Mount.Probe.{Never, IsKeptClean, load_fsinfo-IsClean}

-- No boot record on the drive that is accepted.
abbrev pub HasNone : Bytes → Type 0
HasNone d = (s : ℕ) → IsBoot d s → read_bpb (load_bpb (sector d s)) s ≡ none

pub data Outcome (m : Mount) (fsid : ℕ) : Mounted → Type 0 where
  -- The volume is mounted already, and nothing happens.
  still : {g : Geometry} → m.geometry ≡ some g → Outcome m fsid (mounted m fsid)
  -- The volume of the boot record on the drive, under a new id.
  fresh :
      {m' : Mount} (s : ℕ) (g : Geometry)
      → IsBoot m.fs.disk s
      → read_bpb (load_bpb (sector m.fs.disk s)) s ≡ some g
      → m'.geometry ≡ some g
      → m'.id ≡ u16 (fsid + 1)
      → IsOver m.fs.disk m'.fs
      → Outcome m fsid (mounted m' (u16 (fsid + 1)))
  -- No boot record that is accepted: the object stays unmounted.
  none_found :
      {m' : Mount} {e : Fresult}
      → (e ≡ disk_err) ⊎ (e ≡ no_filesystem)
      → HasNone m.fs.disk
      → m'.geometry ≡ none
      → m'.id ≡ m.id
      → IsOver m.fs.disk m'.fs
      → Outcome m fsid (refused e m' fsid)

module _ (m : Mount) (fsid : ℕ) (unmounted : m.geometry ≡ none) where
  registered-Outcome :
      (w : Fatfs) {r : Out (Unit {0})} (s : ℕ) (g : Geometry)
      → w.disk ≡ m.fs.disk
      → Ends (λ _ u. IsKeptClean w u) Never r
      → IsBoot m.fs.disk s
      → read_bpb (load_bpb (sector m.fs.disk s)) s ≡ some g
      → Outcome m fsid (register m fsid g r)
  unfolding register
  registered-Outcome w s g same (returns (c, d)) boot e =
      fresh s g boot e refl refl (record { clean = c; drive = d ∙ same })
  registered-Outcome w s g same (fails never) boot e = absurd never

  -- The one boot record is refused.
  refused_one :
      (s : ℕ)
      → IsBoot m.fs.disk s
      → read_bpb (load_bpb (sector m.fs.disk s)) s ≡ none
      → HasNone m.fs.disk
  refused_one s boot e t there =
      subst (λ (k : ℕ). read_bpb (load_bpb (sector m.fs.disk k)) k ≡ none)
        (IsBoot-unique m.fs.disk s t boot there) e

  found-Outcome :
      {r : Out ℕ}
      → Ends (λ fmt w. IsOver m.fs.disk w × Located m.fs.disk fmt w) Never r
      → Outcome m fsid (mount_found m fsid r)
  unfolding mount_found
  found-Outcome (fails never) = absurd never
  found-Outcome (returns {a = fmt} {v = w} (o, inr (more, nowhere))) =
      elim (Bool-cases (fmt == 4)) [
        | inl error ↦
            rw error (none_found (inl refl) (λ s h. absurd (nowhere s h)) unmounted refl o)
        | inr read ↦
            rw (read, more) (none_found (inr refl) (λ s h. absurd (nowhere s h)) unmounted refl o)
      ]
  found-Outcome (returns {a = fmt} {v = w} (o, inl (good, boot, is))) =
      let read : (fmt == 4) ≡ false = ground arith in
      let there : read_bpb (load_bpb w.win) w.winsect
          ≡ read_bpb (load_bpb (sector m.fs.disk w.winsect)) w.winsect =
        ap (λ (q : Bytes). read_bpb (load_bpb q) w.winsect) is in
      elim (Option-cases (read_bpb (load_bpb w.win) w.winsect)) [
        | inl e ↦
            rw (read, good, e)
              (none_found (inr refl) (refused_one w.winsect boot (sym there ∙ e)) unmounted refl o)
        | inr (g, e) ↦
            rw (read, good, e)
              (registered-Outcome w w.winsect g o.drive (load_fsinfo-IsClean g o.clean) boot
                (sym there ∙ e))
      ]

-- `mount_volume` has one of three outcomes. A mounted volume stays as it is. Otherwise, with bytes in
-- the buffer of the window and on the drive, whatever else an earlier volume left in the object: the
-- geometry is that of the boot record, which is in sector 0, or where that has a partition table,
-- in the first sector of the first partition that has one, and the object has it under the next
-- mount id; or the drive has no boot record or it is not accepted, and the object stays unmounted and
-- keeps its id, as `Fsid` does. Either way the drive is as before and the window clean.
pub mount_volume-Outcome :
    (write : Bool) (m : Mount) (fsid : ℕ)
    → AreBytes m.fs.win
    → AreBytes m.fs.disk
    → Outcome m fsid (mount_volume write m fsid)
unfolding mount_volume disk_status disk_initialize
mount_volume-Outcome true m fsid letters bytes = elim (Option-cases m.geometry) [
  | inr (g, e) ↦ rw e (still refl)
  | inl e ↦ rw e (
      found-Outcome (record m { geometry = none }) fsid refl
        (find_volume-Located m.stale m.fs.disk bytes m.fs letters refl))
]
mount_volume-Outcome false m fsid letters bytes = elim (Option-cases m.geometry) [
  | inr (g, e) ↦ rw e (still refl)
  | inl e ↦ rw e (
      found-Outcome (record m { geometry = none }) fsid refl
        (find_volume-Located m.stale m.fs.disk bytes m.fs letters refl))
]
