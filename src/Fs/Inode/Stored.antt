-- ===== src/Fs/Inode/Stored.antt =====
-- An inode that `iupdate` of kernel/fs.c stores, as `ilock` reads it back.
use oshard.Common.{
  ℕ, ◌+◌, ◌*◌, ◌≤◌, ◌≡◌, inl, refl, ap, ap₂, sym, subst, ◌≢◌, ok, ◌∙◌, true, false, List, [], ◌∷◌,
  arith, length, ◌==◌,
}
use oshard.Fs.Table.{fill, load_inode}
use oshard.Fs.{Fs, put_block, bsize}
use oshard.Fs.Bytes.{get_le, put_le, Fits, get_le-put_le, get_le-put_le_other, length-put_le}
use oshard.Fs.Inode.{
  Inode, iblock, dinode_at, put_addrs, get_addrs, put_dinode, get_dinode, iupdate,
}

-- every address is a `uint`
abbrev pub AllFit : List ℕ → Type 0
AllFit [] = Unit
AllFit (a ∷ addrs) = Fits 4 a × AllFit addrs

-- the fields fit in those of `struct dinode`
pub record IsStorable (ip : Inode) : Type 0 where
  pub type_fits : Fits 2 ip.type
  pub major_fits : Fits 2 ip.major
  pub minor_fits : Fits 2 ip.minor
  pub nlink_fits : Fits 2 ip.nlink
  pub size_fits : Fits 4 ip.size
  pub addrs_fit : AllFit ip.addrs
  pub count : length ip.addrs ≡ 13

-- Writing addresses leaves what is before them.
get_le-put_addrs :
    (m : ℕ) (bytes : List ℕ) (at i : ℕ) (addrs : List ℕ)
    → i + m ≤ at
    → get_le m (put_addrs bytes at addrs) i ≡ get_le m bytes i
unfolding put_addrs
get_le-put_addrs m bytes at i [] before = refl
get_le-put_addrs m bytes at i (a ∷ addrs) before =
    get_le-put_addrs m (put_le 4 bytes at a) (at + 4) i addrs (omega arith)
    ∙ get_le-put_le_other m 4 bytes at a i (inl before)

get_addrs-put_addrs :
    (addrs bytes : List ℕ) (at : ℕ)
    → at + 4 * length addrs ≤ length bytes
    → AllFit addrs
    → get_addrs (length addrs) (put_addrs bytes at addrs) at ≡ addrs
unfolding put_addrs get_addrs
get_addrs-put_addrs [] bytes at inside fits = refl
get_addrs-put_addrs (a ∷ addrs) bytes at inside (fit, fits) =
    ap₂ (λ x xs. x ∷ xs)
      (get_le-put_addrs 4 (put_le 4 bytes at a) (at + 4) at addrs (omega arith)
        ∙ get_le-put_le 4 bytes at a (omega arith) fit)
      (get_addrs-put_addrs addrs (put_le 4 bytes at a) (at + 4)
        (omega (arith, length-put_le 4 bytes at a)) fits)

-- a field that is written is read back, whatever is written after it
abbrev pub SameFields : Inode → Inode → Type 0
SameFields a b =
    (a.type ≡ b.type)
    × (a.major ≡ b.major)
    × (a.minor ≡ b.minor)
    × (a.nlink ≡ b.nlink)
    × (a.size ≡ b.size)
    × (a.addrs ≡ b.addrs)

get_dinode-put_dinode :
    (bytes : List ℕ) (at : ℕ) (ip old : Inode)
    → at + 64 ≤ length bytes
    → IsStorable ip
    → SameFields (get_dinode (put_dinode bytes at ip) at old) ip
unfolding get_dinode put_dinode
get_dinode-put_dinode bytes at ip old inside k =
    let b1 = put_le 2 bytes at ip.type in
    let b2 = put_le 2 b1 (at + 2) ip.major in
    let b3 = put_le 2 b2 (at + 4) ip.minor in
    let b4 = put_le 2 b3 (at + 6) ip.nlink in
    let b5 = put_le 4 b4 (at + 8) ip.size in
    let l1 : length b1 ≡ length bytes = length-put_le 2 bytes at ip.type in
    let l2 : length b2 ≡ length bytes = length-put_le 2 b1 (at + 2) ip.major ∙ l1 in
    let l3 : length b3 ≡ length bytes = length-put_le 2 b2 (at + 4) ip.minor ∙ l2 in
    let l4 : length b4 ≡ length bytes = length-put_le 2 b3 (at + 6) ip.nlink ∙ l3 in
    let l5 : length b5 ≡ length bytes = length-put_le 4 b4 (at + 8) ip.size ∙ l4 in
    let past_addrs : (m i : ℕ)
        → i + m ≤ at + 12
        → get_le m (put_addrs b5 (at + 12) ip.addrs) i ≡ get_le m b5 i =
      λ m i before. get_le-put_addrs m b5 (at + 12) i ip.addrs before in
    let past_size : (i : ℕ)
        → i + 2 ≤ at + 8
        → get_le 2 (put_addrs b5 (at + 12) ip.addrs) i ≡ get_le 2 b4 i =
      λ i before.
        past_addrs 2 i (omega arith) ∙ get_le-put_le_other 2 4 b4 (at + 8) ip.size i (inl before) in
    let past_nlink : (i : ℕ)
        → i + 2 ≤ at + 6
        → get_le 2 (put_addrs b5 (at + 12) ip.addrs) i ≡ get_le 2 b3 i =
      λ i before.
        past_size i (omega arith) ∙ get_le-put_le_other 2 2 b3 (at + 6) ip.nlink i (inl before) in
    let past_minor : (i : ℕ)
        → i + 2 ≤ at + 4
        → get_le 2 (put_addrs b5 (at + 12) ip.addrs) i ≡ get_le 2 b2 i =
      λ i before.
        past_nlink i (omega arith) ∙ get_le-put_le_other 2 2 b2 (at + 4) ip.minor i (inl before) in
    (
      past_minor at (omega arith)
          ∙ get_le-put_le_other 2 2 b1 (at + 2) ip.major at (inl (omega arith))
          ∙ get_le-put_le 2 bytes at ip.type (omega arith) k.type_fits,
      past_minor (at + 2) (omega arith)
          ∙ get_le-put_le 2 b1 (at + 2) ip.major (omega (arith, l1)) k.major_fits,
      past_nlink (at + 4) (omega arith)
          ∙ get_le-put_le 2 b2 (at + 4) ip.minor (omega (arith, l2)) k.minor_fits,
      past_size (at + 6) (omega arith)
          ∙ get_le-put_le 2 b3 (at + 6) ip.nlink (omega (arith, l3)) k.nlink_fits,
      past_addrs 4 (at + 8) (omega arith)
          ∙ get_le-put_le 4 b4 (at + 8) ip.size (omega (arith, l4)) k.size_fits,
      subst (λ n. get_addrs n (put_addrs b5 (at + 12) ip.addrs) (at + 12) ≡ ip.addrs) k.count
          (get_addrs-put_addrs ip.addrs b5 (at + 12) (omega (arith, l5, k.count)) k.addrs_fit),
    )

put_block_self : (fs : Fs) (n : ℕ) (bytes : List ℕ) → (put_block fs n bytes).block n ≡ bytes
put_block_self fs n bytes = let t : (n == n) ≡ true = ground arith in rw t

-- `load_inode` of an inode that is not in memory, from what the disk has
load_inode_read :
    (fs : Fs) (old read : Inode)
    → old.valid ≡ false
    → get_dinode (fs.block (iblock fs old.inum)) (dinode_at old.inum) old ≡ read
    → read.type ≢ 0
    → load_inode fs old ≡ ok (record read { valid = true })
unfolding load_inode
load_inode_read fs old read stale e used =
    let t : (read.type == 0) ≡ false = ground arith in ap₂ (λ v r. fill v old r) stale e ∙ rw t

-- An inode in use whose fields fit in the disk format, stored by iupdate in a whole block, is read
-- back by ilock into an entry for it that was not valid, field by field.
pub load_inode-iupdate :
    (fs : Fs) (ip old : Inode)
    → length (fs.block (iblock fs ip.inum)) ≡ bsize
    → IsStorable ip
    → old.inum ≡ ip.inum
    → old.valid ≡ false
    → ip.type ≢ 0
    → (new : Inode) × (load_inode (iupdate fs ip) old ≡ ok new) × SameFields new ip
unfolding iupdate
load_inode-iupdate fs ip old whole k same stale used =
    let bytes = put_dinode (fs.block (iblock fs ip.inum)) (dinode_at ip.inum) ip in
    let read = get_dinode bytes (dinode_at ip.inum) old in
    let fields =
      get_dinode-put_dinode (fs.block (iblock fs ip.inum)) (dinode_at ip.inum) ip old
        (subst (λ n. dinode_at ip.inum + 64 ≤ n) (sym whole) (omega arith)) k in
    let stored = put_block_self fs (iblock fs ip.inum) bytes in
    let found : get_dinode ((iupdate fs ip).block (iblock fs old.inum)) (dinode_at old.inum) old
        ≡ read =
      ap (λ i. get_dinode ((iupdate fs ip).block (iblock fs i)) (dinode_at i) old) same
      ∙ ap (λ b. get_dinode b (dinode_at ip.inum) old) stored in
    (
      record read { valid = true },
      load_inode_read (iupdate fs ip) old read stale found (λ z. used (sym fields.0 ∙ z)),
      fields,
    )
