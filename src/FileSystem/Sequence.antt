-- ===== src/FileSystem/Sequence.antt =====
-- src/efi/protocols/simple_file_system.rs: any sequence of reads and moves in an open file.
use crab_efi.Prelude.{
  ℕ, ◌+◌, ◌≤◌, false, some, List, [], ◌∷◌, ◌≡◌, refl, ap, ◌∙◌, ◌==◌, if◌then◌else◌, length, take,
  u64_max, Bool-cases, arith, length-take, inl, inr,
}
use mathlib.Core.Path.{ap₂}
use crab_efi.Disk.{Fallible, ok, ◌>>=◌}
use crab_efi.Status.{Status, success}
use crab_efi.Fat.Cluster.{Fault}
use crab_efi.FileSystem.{FileHandle, FileSystem, open_handle, with_handle, unsupported}
use crab_efi.FileSystem.Calls.{Reply, file_set_position, set_position_of, read_regular}
use crab_efi.FileSystem.Directory.{
  Read, refused, of_bytes, of_entry, file_read, read_handle, read_directory,
}
use crab_efi.FileSystem.Cursor.{piece, OnDisk, Left, with_handle-Left, read_regular-piece}

-- Calls that read a file, or move in it.
pub data Op : Type 0 where
  seek : ℕ → Op
  read : ℕ → Op

-- The specification: a file is its bytes, and a position.
abbrev pub seek_to : List ℕ → ℕ → ℕ
seek_to file position = if position == u64_max then length file else position

abbrev pub cursor : List ℕ → ℕ → List Op → List (Status × List ℕ)
cursor file position [] = []
cursor file position (seek p ∷ ops) = (success, []) ∷ cursor file (seek_to file p) ops
cursor file position (read n ∷ ops) =
    let bytes = piece file position n in
    (success, bytes) ∷ cursor file (position + length bytes) ops

-- The calls of the code, on the slot `this`.
abbrev pub Outcome : Type 0
Outcome = FileSystem × Status × List ℕ

abbrev pub observed : Read → Outcome
observed (refused s status size) = (s, status, [])
observed (of_bytes r) = (r.state, r.status, r.bytes)
observed (of_entry t) = (t.state, t.status, [])

module _ (info_size system_info_size fuel : ℕ) (this : ℕ) where
  abbrev pub call : FileSystem → Op → Fallible Fault Outcome
  call s (seek p) = let (s', status) = file_set_position s this p in ok (s', status, [])
  call s (read n) =
      file_read info_size system_info_size fuel s false this n false >>= λ r. ok (observed r)

  abbrev pub run : FileSystem → List Op → Fallible Fault (List (Status × List ℕ))
  run s [] = ok []
  run s (op ∷ ops) = call s op >>= λ o. (run o.0 ops >>= λ rest. ok ((o.1, o.2) ∷ rest))

  OnDisk-Left :
      (s s' : FileSystem) (h : FileHandle) (bytes : List ℕ) (position : ℕ)
      → OnDisk s h bytes
      → Left s this (record h { position = position }) s'
      → OnDisk s' (record h { position = position }) bytes
  OnDisk-Left s s' h bytes position d l = record {
    mount = d.mount;
    device = d.device;
    fat = d.fat;
    content = d.content;
    mount_known = l.same_mount ∙ d.mount_known;
    device_known = l.same_device ∙ d.device_known;
    fat_known = d.fat_known;
    readable = d.readable;
    chain = d.chain;
    cluster_small = d.cluster_small;
    size_small = d.size_small;
    enough = d.enough;
  }

  -- `file_set_position` of a file.
  abbrev moved : FileSystem → FileHandle → ℕ → FileSystem × Status
  moved s h p =
      if p == u64_max
      then (with_handle s this (record h { position = h.file_size }), success)
      else (with_handle s this (record h { position = p }), success)

  set_position-Left :
      (s : FileSystem) (h : FileHandle) (bytes : List ℕ) (p : ℕ)
      → open_handle s this ≡ some h
      → h.file_size ≤ length bytes
      → let position = seek_to (take h.file_size bytes) p in
        let s' = with_handle s this (record h { position = position }) in
        (moved s h p ≡ (s', success)) × Left s this (record h { position = position }) s'
  set_position-Left s h bytes p opened enough =
      let left = with_handle-Left s this h (seek_to (take h.file_size bytes) p) opened in
      let whole : h.file_size ≡ length (take h.file_size bytes) =
        omega (arith, length-take h.file_size bytes, enough) in
      elim (Bool-cases (p == u64_max)) [
        | inl end ↦ (
          rw end (ap (λ k. (with_handle s this (record h { position = k }), success)) whole),
          left,
        )
        | inr inside ↦ (rw inside refl, left)
      ]

  seek_step :
      (s : FileSystem) (h : FileHandle) (bytes : List ℕ) (p : ℕ)
      → open_handle s this ≡ some h
      → h.is_directory ≡ false
      → h.file_size ≤ length bytes
      → let position = seek_to (take h.file_size bytes) p in
        let s' = with_handle s this (record h { position = position }) in
        (call s (seek p) ≡ ok (s', success, [])) × Left s this (record h { position = position }) s'
  unfolding file_set_position
  seek_step s h bytes p opened regular enough =
      let (e, left) = set_position-Left s h bytes p opened enough in
      let found =
        ap (set_position_of s this p) opened
        ∙ ap
            (λ b.
              if b
              then if p == 0
                then (with_handle s this (record h { position = 0 }), success)
                else (s, unsupported)
              else moved s h p)
            regular
        ∙ e in
      (ap (λ o. ok (o.0, o.1, [])) found, left)

  file_read-regular :
      (s : FileSystem) (h : FileHandle) (n : ℕ) (r : Reply)
      → open_handle s this ≡ some h
      → h.is_directory ≡ false
      → read_regular s this h n false ≡ ok r
      → file_read info_size system_info_size fuel s false this n false ≡ ok (of_bytes r)
  unfolding file_read
  file_read-regular s h n r opened regular e =
      ap (read_handle info_size system_info_size fuel s this n false) opened
      ∙ ap
          (λ b.
            if b
            then (read_directory info_size system_info_size fuel s this h n false s.filesystem
                >>= λ t. ok (of_entry t))
            else (read_regular s this h n false >>= λ q. ok (of_bytes q)))
          regular
      ∙ ap (λ q. q >>= λ t. ok (of_bytes t)) e

  read_step :
      (s : FileSystem) (h : FileHandle) (bytes : List ℕ) (n : ℕ)
      → OnDisk s h bytes
      → open_handle s this ≡ some h
      → h.is_directory ≡ false
      → let got = piece (take h.file_size bytes) h.position n in
        (s' : FileSystem) × (call s (read n) ≡ ok (s', success, got))
        × Left s this (record h { position = h.position + length got }) s'
  read_step s h bytes n d opened regular =
      let (r, e, reads) = read_regular-piece s this h bytes n d opened in
      let read_now = file_read-regular s h n r opened regular e in
      (
        r.state,
        ap (λ q. q >>= λ t. ok (observed t)) read_now
            ∙ ap₂ (λ status bs. ok (r.state, status, bs)) reads.status reads.read_bytes,
        reads.left,
      )

  run_step :
      (s s' : FileSystem) (op : Op) (ops : List Op) (bs : List ℕ) (rest : List (Status × List ℕ))
      → call s op ≡ ok (s', success, bs)
      → run s' ops ≡ ok rest
      → run s (op ∷ ops) ≡ ok ((success, bs) ∷ rest)
  run_step s s' op ops bs rest e more =
      ap (λ c. c >>= λ o. (run o.0 ops >>= λ tail. ok ((o.1, o.2) ∷ tail))) e
      ∙ ap (λ c. c >>= λ tail. ok ((success, bs) ∷ tail)) more

  -- Any sequence of calls that read an open file, or move in it, succeeds, and gives what a position in
  -- the bytes of the file gives.
  pub run-cursor :
      (ops : List Op) (s : FileSystem) (h : FileHandle) (bytes : List ℕ)
      → OnDisk s h bytes
      → open_handle s this ≡ some h
      → h.is_directory ≡ false
      → run s ops ≡ ok (cursor (take h.file_size bytes) h.position ops)
  run-cursor [] s h bytes d opened regular = refl
  run-cursor (seek p ∷ ops) s h bytes d opened regular =
      let position = seek_to (take h.file_size bytes) p in
      let h' : FileHandle = record h { position = position } in
      let s' = with_handle s this h' in
      let (e, left) = seek_step s h bytes p opened regular d.enough in
      let rest =
        run-cursor ops s' h' bytes (OnDisk-Left s s' h bytes position d left) left.handle regular in
      run_step s s' (seek p) ops [] (cursor (take h.file_size bytes) position ops) e rest
  run-cursor (read n ∷ ops) s h bytes d opened regular =
      let got = piece (take h.file_size bytes) h.position n in
      let position = h.position + length got in
      let h' : FileHandle = record h { position = position } in
      let (s', e, left) = read_step s h bytes n d opened regular in
      let rest =
        run-cursor ops s' h' bytes (OnDisk-Left s s' h bytes position d left) left.handle regular in
      run_step s s' (read n) ops got (cursor (take h.file_size bytes) position ops) e rest
