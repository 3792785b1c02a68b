-- ===== src/File/Tests.antt =====
-- Runs of kernel/file.c over a disk that counts the bytes written to it.
use oshard.Common.{ℕ, ◌+◌, ◌-◌, ◌≡◌, refl, true, none, some, ok, panic, leb, if◌then◌else◌}
use oshard.File.{
  File, fd_pipe, fd_inode, Below, blank_file, write_chunk, chunk_loop, write_inode, filewrite,
  filealloc, filedup, fileclose,
}

abbrev counting : Below ℕ
counting = record {
  bd_malloc = λ s n. ok (s, s);
  bd_free = λ s a. ok s;
  pipeclose = λ s p w. ok (s + 1000);
  piperead = λ s p addr n. ok (0, s);
  pipewrite = λ s p addr n. ok (0, s);
  begin_op = λ s. ok s;
  end_op = λ s. ok s;
  iput = λ s ip. ok s;
  ilock = λ s ip. ok s;
  iunlock = λ s ip. ok s;
  readi = λ s ip addr off n. ok (0, s);
  writei = λ s ip addr off n. ok (n, s + n);
  copy_stat = λ s ip addr. (true, s);
  device_read = λ major. none;
  device_write = λ major. none;
}

abbrev open_file : File
open_file = record blank_file { type = fd_inode; ref = 1; writable = true; off = 10 }

-- A disk with so many bytes free, on which a write goes whole or takes all that is left.
abbrev filling : Below ℕ
filling = record counting {
  writei = λ s ip addr off n. if leb n s then ok (n, s - n) else ok (s, 0);
}

abbrev IsInode : ℕ → File → Type 0
IsInode s f = Unit

-- two transactions, of 3072 bytes and of 1928
chunks : filewrite counting 0 open_file 4096 5000 ≡ ok (5000, record open_file { off = 5010 }, 5000)
unfolding filewrite write_inode write_chunk chunk_loop
chunks = refl

abbrev pipe_end : File
pipe_end = record blank_file { type = fd_pipe; ref = 1; writable = true }

-- `fileclose` reaches the pipe only with the last reference, and no memory stops `filealloc`.
closes :
    (filedup pipe_end ≡ ok (record pipe_end { ref = 2 }))
    × (fileclose counting 5 64 (record pipe_end { ref = 2 }) ≡ ok (some pipe_end, 5))
    × (fileclose counting 5 64 pipe_end ≡ ok (none, 1005))
    × (filealloc counting 0 ≡ panic "kerneltrap")
unfolding filedup fileclose filealloc
closes = (refl, refl, refl, refl)
