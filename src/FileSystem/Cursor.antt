-- ===== src/FileSystem/Cursor.antt =====
-- src/efi/protocols/simple_file_system.rs: the position of an open file.
use crab_efi.Prelude.{
  ℕ, zero, suc, ◌+◌, ◌-◌, ◌%◌, ◌^◌, ◌<◌, ◌≤◌, true, false, Option, none, some, List, [], ◌∷◌, ◌≡◌,
  refl, sym, ap, ◌∙◌, ◌==◌, leb, if◌then◌else◌, length, take, drop, min, u32_mod, get_elem?,
  get_elem?-set_self, take_nil, drop_nil, Bool-cases, arith, subst, inl, inr,
}
use crab_efi.Disk.{BlockDevice, Fallible, ok, ◌>>=◌}
use crab_efi.Status.{success}
use crab_efi.Fat.{FatFilesystem, new_fat}
use crab_efi.Fat.Cluster.{Fault}
use crab_efi.Fat.Directory.{first_cluster}
use crab_efi.Fat.File.{read_file}
use crab_efi.Fat.File.OnDisk.{Linked, Readable, read_file-Linked}
use crab_efi.FileSystem.{
  FileHandle, FilesystemState, FileSystem, open_handle, with_handle, if_in_use,
}
use crab_efi.FileSystem.Calls.{
  Reply, mounted, read_mounted, read_regular, create_file_entry, read_done, refuse,
}

-- A piece of a file, from a position on.
abbrev pub piece : List ℕ → ℕ → ℕ → List ℕ
piece file position n = take n (drop position file)

-- A piece of a file that is the start of the bytes of its clusters.
piece-take :
    (bytes : List ℕ) (size position n : ℕ)
    → piece (take size bytes) position n ≡ take (min n (size - position)) (drop position bytes)
piece-take [] size position n =
    rw (take_nil size, drop_nil position, take_nil n) (sym (take_nil (min n (size - position))))
piece-take (b ∷ bytes) zero position n =
    let same : min n (0 - position) ≡ 0 = omega arith in
    rw (drop_nil position, take_nil n, same) refl
piece-take (b ∷ bytes) (suc size) zero zero =
    let same : min 0 (suc size - 0) ≡ 0 = omega arith in rw same refl
piece-take (b ∷ bytes) (suc size) zero (suc n) =
    let same : min (suc n) (suc size - 0) ≡ suc (min n (size - 0)) = omega arith in
    rw (same) (ap (λ bs. b ∷ bs) (piece-take bytes size zero n))
piece-take (b ∷ bytes) (suc size) (suc position) n =
    let same : suc size - suc position ≡ size - position = omega arith in
    rw same (piece-take bytes size position n)

-- An open file that lies on a disk: its handle, and the clusters that the table links from its first
-- one on.
pub record OnDisk (s : FileSystem) (h : FileHandle) (bytes : List ℕ) : Type 0 where
  pub mount : FilesystemState
  pub device : BlockDevice
  pub fat : FatFilesystem
  pub content : ℕ → ℕ
  pub mount_known : s.filesystem ≡ some mount
  pub device_known : s.block_device ≡ some device
  pub fat_known : new_fat device mount.partition_start ≡ ok fat
  pub readable : Readable fat content
  pub chain : Linked fat content h.first_cluster bytes
  pub cluster_small : h.first_cluster < 2 ^ 32
  pub size_small : h.file_size < 2 ^ 32
  pub enough : h.file_size ≤ length bytes

entry_of_handle :
    (h : FileHandle)
    → h.first_cluster < 2 ^ 32
    → h.file_size < 2 ^ 32
    → let e = create_file_entry h.first_cluster (h.file_size % u32_mod) in
      (first_cluster e ≡ h.first_cluster) × (e.file_size ≡ h.file_size)
entry_of_handle h c f = omega arith

pub mounted_ok :
    {A : Type 0} (o : Option BlockDevice) (device : BlockDevice) (start : ℕ) (fat : FatFilesystem)
    (use_fat : FatFilesystem → Fallible Fault A) {a : A}
    → o ≡ some device
    → new_fat device start ≡ ok fat
    → use_fat fat ≡ ok a
    → mounted o start use_fat ≡ ok (some (some a))
mounted_ok o device start fat use_fat has mounts used = rw (has, mounts, used) refl

read_file-taken :
    (fat : FatFilesystem) (content : ℕ → ℕ) (h : FileHandle) (bytes : List ℕ) (n : ℕ)
    → Readable fat content
    → Linked fat content h.first_cluster bytes
    → h.first_cluster < 2 ^ 32
    → h.file_size < 2 ^ 32
    → h.position < h.file_size
    → n ≤ h.file_size - h.position
    → read_file fat
        (create_file_entry h.first_cluster (h.file_size % u32_mod))
        (h.position % u32_mod)
        n
      ≡ ok (take n (drop h.position bytes))
read_file-taken fat content h bytes n readable chain cluster size inside short =
    let e = create_file_entry h.first_cluster (h.file_size % u32_mod) in
    let (same_cluster, same_size) = entry_of_handle h cluster size in
    let chain' : Linked fat content (first_cluster e) bytes =
      subst (λ c. Linked fat content c bytes) (sym same_cluster) chain in
    let position : h.position % u32_mod ≡ h.position = omega arith in
    let whole : min (n % u32_mod) (e.file_size - h.position) ≡ n = omega (arith, same_size) in
    let given =
      read_file-Linked fat content e (h.position % u32_mod) n bytes readable refl chain' in
    given ∙ rw position (ap (λ k. ok (take k (drop h.position bytes))) whole)

-- A read that is not empty.
read_mounted-OnDisk :
    (s : FileSystem) (this : ℕ) (h : FileHandle) (bytes : List ℕ) (size n : ℕ)
    → OnDisk s h bytes
    → h.position < h.file_size
    → n ≤ h.file_size - h.position
    → read_mounted s this h size n s.filesystem
      ≡ ok (read_done s this h size (some (some (take n (drop h.position bytes)))))
read_mounted-OnDisk s this h bytes size n d inside short =
    let used =
      read_file-taken d.fat d.content h bytes n d.readable d.chain d.cluster_small d.size_small
        inside short in
    let done =
      mounted_ok s.block_device d.device d.mount.partition_start d.fat
        (λ fat.
          read_file fat (create_file_entry h.first_cluster (h.file_size % u32_mod))
            (h.position % u32_mod) n)
        d.device_known d.fat_known used in
    subst
      (λ o.
        read_mounted s this h size n o
        ≡ ok (read_done s this h size (some (some (take n (drop h.position bytes))))))
      (sym d.mount_known) (ap (λ r. r >>= λ result. ok (read_done s this h size result)) done)

-- The state after a call, with the handle that it leaves.
pub record Left (s : FileSystem) (this : ℕ) (h : FileHandle) (s' : FileSystem) : Type 0 where
  pub handle : open_handle s' this ≡ some h
  pub same_mount : s'.filesystem ≡ s.filesystem
  pub same_device : s'.block_device ≡ s.block_device

if_in_use-some :
    (o : Option FileHandle) {h : FileHandle}
    → if_in_use o ≡ some h
    → (o ≡ some h) × (h.in_use ≡ true)
if_in_use-some none e = cc
if_in_use-some (some g) {h = h} e = elim (Bool-cases g.in_use) [
  | inl on ↦
      let same : some g ≡ some h = sym (ap (λ b. if b then some g else none) on) ∙ e in
      let same' : g ≡ h = cc in (same, ap (λ k. k.in_use) (sym same') ∙ on)
  | inr off ↦ let no : none ≡ some h = sym (ap (λ b. if b then some g else none) off) ∙ e in cc
]

get_elem?-inside :
    {A : Type 0} (xs : List A) (i : ℕ) {a : A} → get_elem? xs i ≡ some a → i < length xs
get_elem?-inside [] i e = cc
get_elem?-inside (x ∷ xs) zero e = omega arith
get_elem?-inside (x ∷ xs) (suc i) e = omega (arith, get_elem?-inside xs i e)

-- A handle that is written back with another position.
pub with_handle-Left :
    (s : FileSystem) (this : ℕ) (h : FileHandle) (position : ℕ)
    → open_handle s this ≡ some h
    → Left s this
        (record h { position = position })
        (with_handle s this (record h { position = position }))
with_handle-Left s this h position opened =
    let (at, on) = if_in_use-some (get_elem? s.handles this) opened in
    let inside = get_elem?-inside s.handles this at in
    record {
      handle =
          rw (get_elem?-set_self s.handles this (record h { position = position }) inside, on) refl;
      same_mount = refl;
      same_device = refl;
    }

-- What a read of so many bytes leaves.
pub record Reads (s : FileSystem) (this : ℕ) (h : FileHandle) (bytes : List ℕ) (r : Reply)
    : Type 0 where
  pub status : r.status ≡ success
  pub read_bytes : r.bytes ≡ bytes
  pub size : r.size ≡ length bytes
  pub left : Left s this (record h { position = h.position + length bytes }) r.state

nothing_read :
    (s : FileSystem) (this : ℕ) (h : FileHandle) (bytes : List ℕ)
    → open_handle s this ≡ some h
    → bytes ≡ []
    → Reads s this h bytes (refuse s success 0)
nothing_read s this h bytes opened none_left =
    let here : h.position ≡ h.position + 0 = omega arith in
    rw none_left (record {
      status = refl;
      read_bytes = refl;
      size = refl;
      left = record {
        handle = opened ∙ ap (λ p. some (record h { position = p })) here;
        same_mount = refl;
        same_device = refl;
      };
    })

pub read_regular-piece :
    (s : FileSystem) (this : ℕ) (h : FileHandle) (bytes : List ℕ) (n : ℕ)
    → OnDisk s h bytes
    → open_handle s this ≡ some h
    → (r : Reply) × (read_regular s this h n false ≡ ok r)
      × Reads s this h (piece (take h.file_size bytes) h.position n) r
read_regular-piece s this h bytes n d opened =
    let taken = piece-take bytes h.file_size h.position n in
    elim (Bool-cases (leb h.file_size h.position)) [
      | inl past ↦
          let k : min n (h.file_size - h.position) ≡ 0 = ground arith in
          (
            refuse s success 0,
            rw past refl,
            nothing_read s this h (piece (take h.file_size bytes) h.position n) opened
                (taken ∙ rw k refl),
          )
      | inr inside ↦ elim (Bool-cases (min n (h.file_size - h.position) == 0)) [
        | inl zero_bytes ↦
            let k : min n (h.file_size - h.position) ≡ 0 = ground arith in
            (
              refuse s success 0,
              rw (inside, zero_bytes) refl,
              nothing_read s this h (piece (take h.file_size bytes) h.position n) opened
                  (taken ∙ rw k refl),
            )
        | inr some_bytes ↦
            let k = min n (h.file_size - h.position) in
            let before : h.position < h.file_size = ground arith in
            let done = read_mounted-OnDisk s this h bytes n k d before (omega arith) in
            let read_now = take k (drop h.position bytes) in
            (
              read_done s this h n (some (some read_now)),
              rw (inside, some_bytes) done,
              rw taken (record {
                status = refl;
                read_bytes = refl;
                size = refl;
                left = with_handle-Left s this h (h.position + length read_now) opened;
              }),
            )
      ]
    ]
