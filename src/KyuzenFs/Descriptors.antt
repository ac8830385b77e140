-- ===== src/KyuzenFs/Descriptors.antt =====
-- kernel/kyuzenfs.c as the file system that the file descriptors of kernel/vfs_fd.c call.
use aetheroz.Prelude.{ℕ}
use aetheroz.Vfs.{Kfs}
use aetheroz.KyuzenFs.{Fs}
use aetheroz.KyuzenFs.Files.{
  kfs_exists, kfs_get_file_size, kfs_read_to_buffer, kfs_delete_file, kfs_create_file,
}

-- `reported` is the disk's count of sectors, and `stale` what the stack holds in a new entry.
abbrev pub kyuzen_fs : ℕ → (ℕ → ℕ) → Kfs
kyuzen_fs reported stale = record {
  Disk = Fs;
  kfs_exists = kfs_exists;
  kfs_get_file_size = kfs_get_file_size;
  kfs_read_to_buffer = kfs_read_to_buffer;
  kfs_delete_file = kfs_delete_file;
  kfs_create_file = λ fs path buf size. (kfs_create_file fs reported stale path buf size).1;
}
