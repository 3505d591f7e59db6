-- ===== src/Disk/Tests.antt =====
-- The theorems on the block devices at concrete inputs.
use crab_efi.Prelude.{
  ℕ, ◌+◌, ◌-◌, ◌*◌, ◌%◌, ◌^◌, ◌≡◌, refl, arith, Option, some, none, List, [], ◌∷◌, take_all,
  replicate, length-replicate, if◌then◌else◌, leb, ap,
}
use crab_efi.Prelude.{Fallible, ok, err}
use crab_efi.Disk.{BlockDevice, Holds}
use crab_efi.Disk.Nvme.{NvmeController, NvmeNamespace, find_namespace}
use crab_efi.Disk.Usb.{MassStorageError, UsbMassStorage, read_sectors_generic}
use crab_efi.Disk.Devices.{
  Controllers, AnyBlockDevice, NvmeBlockDevice, UsbBlockDevice, new_nvme, new_usb,
  device_read_blocks,
}
use crab_efi.Disk.Borrowed.{create_nvme_device}
use crab_efi.Disk.Transfer.{blocks_of, NvmeAnswers}
use crab_efi.Disk.Serving.{
  length-blocks_of, IsRead, nvme_read_blocks_lem, Serves, device_read_block-filled,
  create_nvme_device-Holds,
}
use crab_efi.Disk.UsbReading.{usb_read_blocks_lem}
use crab_efi.Disk.Commands.{decode_read, ScsiAnswers, read_sectors_generic_lem}

abbrev content : ℕ → ℕ
content a = a % 251

abbrev namespace : NvmeNamespace
namespace = record { nsid = 1; num_blocks = 100; block_size = 512 }

abbrev controller : NvmeController
controller = record {
  namespaces = namespace ∷ [];
  read_command = λ nsid lba last. ok (blocks_of content 512 lba (last + 1));
}

abbrev controllers : Controllers
controllers = record {
  nvme = controller ∷ [];
  ahci = [];
  sdhci = [];
  usb_read = λ lba size. ok (blocks_of content 512 lba 1);
}

abbrev device : NvmeBlockDevice
device = new_nvme 0 1 100 512 7

answers_all : (limit : ℕ) → NvmeAnswers controller 1 limit namespace content
answers_all limit = record {
  listed = unfold find_namespace in refl;
  sized = omega arith;
  answers = λ lba n some_read fits below.
      let all : n - 1 + 1 ≡ n = omega (arith, some_read) in
      (
        blocks_of content 512 lba (n - 1 + 1),
        refl,
        rw all (
            take_all (n * 512) (blocks_of content 512 lba n)
              (omega (arith, length-blocks_of content 512 lba n))),
      );
}

makes_device : create_nvme_device controllers 0 1 7 ≡ some device
unfolding create_nvme_device find_namespace
makes_device = refl

-- Nine blocks take two commands.
nvme_read_blocks_lem_example :
    IsRead content 512 5 9
      (replicate 100 0)
      (device_read_blocks controllers (AnyBlockDevice.nvme device) 5 9 (replicate 100 0))
nvme_read_blocks_lem_example =
    nvme_read_blocks_lem controllers controller namespace device 0 1 7 100 5 9 content
      (replicate 100 0) refl (answers_all 100) (omega arith) (omega arith) makes_device
      (omega arith) (omega arith)

abbrev served : BlockDevice
served = record { block_size = 512; read_block = λ lba size. ok (blocks_of content 512 lba 1) }

device-Serves : Serves controllers (AnyBlockDevice.nvme device) served
device-Serves = record {
  sized = refl;
  serves = λ lba buffer size.
      device_read_block-filled controllers controller namespace 0 1 7 lba content buffer refl
        (answers_all (lba + 1)) (omega arith) size;
}

create_nvme_device-Holds_example : Holds served 512 content
create_nvme_device-Holds_example =
    create_nvme_device-Holds controllers controller namespace device served 0 1 7 content refl
      answers_all (omega arith) makes_device device-Serves

abbrev usb_device : UsbBlockDevice
usb_device = new_usb 0 3 100 512 7

usb_read_blocks_lem_example :
    IsRead content 512 5 2
      (replicate 1100 0)
      (device_read_blocks controllers (AnyBlockDevice.usb usb_device) 5 2 (replicate 1100 0))
usb_read_blocks_lem_example =
    usb_read_blocks_lem controllers usb_device content 100 5 2 (replicate 1100 0)
      (λ lba slice below fits. refl) (omega arith) (omega arith) (omega arith)
      (omega (arith, length-replicate {A = ℕ} 1100 0))

-- What a READ command is answered with, by what it decodes to.
abbrev answer_command : Option (ℕ × ℕ) → Fallible MassStorageError (List ℕ)
answer_command none = err MassStorageError.command_failed
answer_command (some (lba, n)) = ok (blocks_of content 1 lba n)

abbrev stick : UsbMassStorage
stick = record {
  num_blocks = 2 ^ 33;
  block_size = 1;
  scsi_command = λ command size. answer_command (decode_read command);
}

stick_answers : ScsiAnswers stick (2 ^ 33) content
stick_answers command lba n decoded below = ap answer_command decoded

-- One more block than a READ(10) can count: none is read.
read_sectors_generic_lem_example :
    read_sectors_generic stick 0 65536 65536
    ≡ ok (blocks_of content 1 0 (if leb (0 + 65536) 0xFFFFFFFF then 65536 % 2 ^ 16 else 65536))
read_sectors_generic_lem_example =
    read_sectors_generic_lem stick (2 ^ 33) 0 65536 65536 content stick_answers (omega arith)
      (omega arith) (omega arith) (omega arith)

reads_nothing : read_sectors_generic stick 0 65536 65536 ≡ ok []
reads_nothing = read_sectors_generic_lem_example
