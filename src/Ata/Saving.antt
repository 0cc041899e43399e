-- ===== src/Ata/Saving.antt =====
-- The file system of src/commands.c on the drive of src/handlers.c.
use ro_dos.Prelude.{ℕ, ◌≡◌, true, List}
use ro_dos.Text.{text}
use ro_dos.Fs.{Fs, entries, users}
use ro_dos.Fs.Disk.{fs_save_to_disk}
use ro_dos.Fs.Disk.Load.{fs_load_from_disk}
use ro_dos.Fs.Disk.RoundTrip.{IsSaveable, IsBooted}
use ro_dos.Fs.Disk.Simulation.{load_after_save}
use ro_dos.Ata.{PortIo}
use ro_dos.Ata.Drive.{Drive}
use ro_dos.Ata.Blocks.{port_device, port_device-Implements}

-- `fs_save_to_disk` through `disk_write_lba` on an idle drive that follows the ATA protocol returns 0,
-- and `fs_load_from_disk` through `disk_read_lba` after it, in a program that has just started, brings
-- back the files, the users and the current directory, if there are at most 64 files and 5 users, each
-- has a name, every field fits, each content belongs to one of 128 entries, and the directory is one of
-- drive C.
pub fs_load-fs_save :
    (io : PortIo) (drive : Drive io) (s : Fs) (d : io.Dev) (sectors : ℕ → List ℕ)
    → IsSaveable s
    → drive.Idle d sectors
    → (b : Fs) → IsBooted b
    → (let r = fs_save_to_disk (port_device io) s d in
        let u = (fs_load_from_disk (port_device io) b r.1).0 in
        (r.0 ≡ true)
        × (entries u ≡ entries s)
        × (users u ≡ users s)
        × (text u.current_dir ≡ text s.current_dir))
fs_load-fs_save io drive s d sectors v idle b start =
    load_after_save (port_device io) drive.Idle (port_device-Implements io drive) s d sectors v idle
      b start
