-- ===== src/File.antt =====
-- kernel/file.c and kernel/file.h: open files. `S` is the state of the parts below, and their
-- operations are the fields of `Below`; an open file is found by its address. The lock of a file is
-- held where the code takes it and is not part of the state. `int` and `uint` are patterns of bits.
pub mod Write
mod Tests
use oshard.Common.{
  ℕ, zero, suc, ◌+◌, ◌-◌, ◌*◌, ◌%◌, ◌^◌, Bool, true, false, not, ◌&&◌, ◌||◌, Option, none, some,
  Result, ok, panic, loops, ◌>>=◌, ◌==◌, ltb, if◌then◌else◌, min,
}

pub data FileType : Type 0 where
  fd_none : FileType
  fd_pipe : FileType
  fd_inode : FileType
  fd_device : FileType

-- `struct file`
pub record File : Type 0 where
  pub type : FileType
  pub ref : ℕ
  pub readable : Bool
  pub writable : Bool
  pub pipe : ℕ
  pub ip : ℕ
  pub off : ℕ
  pub major : ℕ

-- the operations that kernel/file.c calls; each transfer returns an `int`
pub record Below (S : Type 0) : Type 0 where
  pub bd_malloc : S → ℕ → Result (ℕ × S)
  pub bd_free : S → ℕ → Result S
  pub pipeclose : S → ℕ → Bool → Result S
  pub piperead : S → ℕ → ℕ → ℕ → Result (ℕ × S)
  pub pipewrite : S → ℕ → ℕ → ℕ → Result (ℕ × S)
  pub begin_op : S → Result S
  pub end_op : S → Result S
  pub iput : S → ℕ → Result S
  pub ilock : S → ℕ → Result S
  pub iunlock : S → ℕ → Result S
  pub readi : S → ℕ → ℕ → ℕ → ℕ → Result (ℕ × S)
  pub writei : S → ℕ → ℕ → ℕ → ℕ → Result (ℕ × S)
  pub copy_stat : S → ℕ → ℕ → Bool × S
  pub device_read : ℕ → Option (S → ℕ → ℕ → Result (ℕ × S))
  pub device_write : ℕ → Option (S → ℕ → ℕ → Result (ℕ × S))

-- NDEV of kernel/param.h, and -1
abbrev pub ndev : ℕ
ndev = 10

abbrev pub minus_one : ℕ
minus_one = 2 ^ 32 - 1

-- `x > 0` for an `int`
abbrev pub positive : ℕ → Bool
positive x = not (x == 0) && ltb x (2 ^ 31)

abbrev pub blank_file : File
blank_file = record {
  type = fd_none;
  ref = 0;
  readable = false;
  writable = false;
  pipe = 0;
  ip = 0;
  off = 0;
  major = 0;
}

-- There is no memory at 0: the `memset` of an allocation that failed traps.
abbrev pub fresh_file : {S : Type 0} → ℕ × S → Result (ℕ × File × S)
fresh_file (f, s) = if f == 0 then panic "kerneltrap" else ok (f, record blank_file { ref = 1 }, s)

-- `off` moves on by a count above 0
abbrev pub advance : File → ℕ → File
advance f r = if positive r then record f { off = (f.off + r) % 2 ^ 32 } else f

-- `((MAXOPBLOCKS - 1 - 1 - 2) / 2) * BSIZE`
abbrev pub max_write : ℕ
max_write = 3 * 1024

module _ {S : Type 0} (sys : Below S) where
  -- the address, the file there and the state
  unfoldable pub filealloc : S → Result (ℕ × File × S)
  filealloc s = sys.bd_malloc s 64 >>= fresh_file

  -- the end of `fileclose` for the last reference
  abbrev pub close_last : S → File → Result S
  close_last s f = elim f.type [
    | fd_none ↦ ok s
    | fd_pipe ↦ sys.pipeclose s f.pipe f.writable
    | fd_inode ↦ sys.begin_op s >>= λ s1. sys.iput s1 f.ip >>= sys.end_op
    | fd_device ↦ sys.begin_op s >>= λ s1. sys.iput s1 f.ip >>= sys.end_op
  ]

  -- the file that is left, when one is
  unfoldable pub fileclose : S → ℕ → File → Result (Option File × S)
  fileclose s a f =
      if not (positive f.ref)
      then panic "fileclose"
      else if positive (f.ref - 1)
      then ok (some (record f { ref = f.ref - 1 }), s)
      else (close_last s f >>= λ s1. sys.bd_free s1 a >>= λ s2. ok (none, s2))

  -- `ilock`, `stati`, `iunlock` and the copy to `addr`
  abbrev pub stat_inode : S → File → ℕ → Result (ℕ × S)
  stat_inode s f addr = sys.ilock s f.ip >>= λ s1. sys.iunlock s1 f.ip >>= λ s2.
      ok (if (sys.copy_stat s2 f.ip addr).0 then 0 else minus_one, (sys.copy_stat s2 f.ip addr).1)

  unfoldable pub filestat : S → File → ℕ → Result (ℕ × S)
  filestat s f addr = elim f.type [
    | fd_none ↦ ok (minus_one, s)
    | fd_pipe ↦ ok (minus_one, s)
    | fd_inode ↦ stat_inode s f addr
    | fd_device ↦ stat_inode s f addr
  ]

  abbrev pub use_device :
      Option (S → ℕ → ℕ → Result (ℕ × S)) → S → File → ℕ → ℕ → Result (ℕ × File × S)
  use_device none s f addr n = ok (minus_one, f, s)
  use_device (some call) s f addr n =
      if ltb f.major ndev then (call s addr n >>= λ r. ok (r.0, f, r.1)) else ok (minus_one, f, s)

  unfoldable pub fileread : S → File → ℕ → ℕ → Result (ℕ × File × S)
  fileread s f addr n = elim f.readable [
    | false ↦ ok (minus_one, f, s)
    | true ↦ elim f.type [
      | fd_none ↦ panic "fileread"
      | fd_pipe ↦ sys.piperead s f.pipe addr n >>= λ r. ok (r.0, f, r.1)
      | fd_device ↦ use_device (sys.device_read f.major) s f addr n
      | fd_inode ↦ sys.ilock s f.ip >>= λ s1. sys.readi s1 f.ip addr f.off n >>= λ r.
          sys.iunlock r.1 f.ip >>= λ s3. ok (r.0, advance f r.0, s3)
    ]
  ]

  -- one transaction of `filewrite`
  unfoldable pub write_chunk : S → File → ℕ → ℕ → Result (ℕ × File × S)
  write_chunk s f addr n1 = sys.begin_op s >>= λ s1. sys.ilock s1 f.ip >>= λ s2.
      sys.writei s2 f.ip addr f.off n1 >>= λ r.
      sys.iunlock r.1 f.ip >>= λ s4. sys.end_op s4 >>= λ s5. ok (r.0, advance f r.0, s5)

  -- The loop of `filewrite` with the rounds left, which ends with `i`.
  unfoldable pub chunk_loop : ℕ → S → File → ℕ → ℕ → ℕ → Result (ℕ × File × S)
  chunk_loop zero s f addr n i = if ltb i n then loops else ok (i, f, s)
  chunk_loop (suc rounds) s f addr n i =
      let n1 = min (n - i) max_write in
      if not (ltb i n)
      then ok (i, f, s)
      else (write_chunk s f ((addr + i) % 2 ^ 64) n1 >>= λ r.
          if not (r.0 == n1) then ok (i, r.1, r.2) else chunk_loop rounds r.2 r.1 addr n (i + n1))

  -- The loop makes no round for an `int` below 0.
  unfoldable pub write_inode : S → File → ℕ → ℕ → Result (ℕ × File × S)
  write_inode s f addr n = chunk_loop n s f addr (if positive n then n else 0) 0 >>= λ r.
      ok (if r.0 == n then n else minus_one, r.1, r.2)

  -- `filewrite` by `f->writable` and `f->type`
  abbrev pub write_by : Bool → FileType → S → File → ℕ → ℕ → Result (ℕ × File × S)
  write_by false t s f addr n = ok (minus_one, f, s)
  write_by true fd_none s f addr n = panic "filewrite"
  write_by true fd_pipe s f addr n = sys.pipewrite s f.pipe addr n >>= λ r. ok (r.0, f, r.1)
  write_by true fd_device s f addr n = use_device (sys.device_write f.major) s f addr n
  write_by true fd_inode s f addr n = write_inode s f addr n

  unfoldable pub filewrite : S → File → ℕ → ℕ → Result (ℕ × File × S)
  unfolding write_inode
  filewrite s f addr n = write_by f.writable f.type s f addr n

-- the file after it
unfoldable pub filedup : File → Result File
filedup f =
    if not (positive f.ref) then panic "filedup" else ok (record f { ref = (f.ref + 1) % 2 ^ 32 })
