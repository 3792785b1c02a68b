-- ===== src/Log/Disk/Crash.antt =====
-- A crash in the middle of `commit` of kernel/log.c, and the recovery after it.
use oshard.Common.{
  ℕ, ◌+◌, ◌-◌, ◌≤◌, ◌<◌, ◌≡◌, refl, ap, sym, subst, ◌∙◌, ◌⊎◌, inl, inr, false, List, [], ◌∷◌, true,
  ltb, if◌then◌else◌, Bool-cases, length, arith,
}
use oshard.LinkedList.Ring.{has}
use oshard.Log.Disk.{
  Store, Block, write_head, write_log, install_trans, commit, reboot, recover_from_log,
}
use oshard.Log.Disk.Writes.{
  LogHolds, IsApart, LogHolds-frame, write_log-IsLogged, install_trans-IsInstalled,
}

-- The blocks that are neither the header nor in the log.
abbrev pub IsHome : ℕ → List ℕ → ℕ → Type 0
IsHome start ns a = (a < start) ⊎ (start + 1 + length ns ≤ a)

-- A home block is not in the log.
home-outside :
    (start a : ℕ) (ns : List ℕ) → IsHome start ns a → (a < start + 1) ⊎ (start + 1 + length ns ≤ a)
home-outside start a ns h = elim h [ inl l ↦ inl (omega (arith, l)) | inr r ↦ inr r ]

-- Blocks at home leave the log free.
homes-IsApart :
    (start : ℕ) (ns : List ℕ)
    → ((a : ℕ) → has a ns ≡ true → IsHome start ns a)
    → IsApart (start + 1) ns
unfolding IsApart
homes-IsApart start ns homes a i = home-outside start a ns (homes a i)

-- A disk on which no transaction waits, and that holds `d`.
pub record IsSettled (start : ℕ) (ns : List ℕ) (d : ℕ → Block) (s : Store) : Type 0 where
  pub erased : s.head ≡ []
  pub holds : (a : ℕ) → IsHome start ns a → s.disk a ≡ d a

-- A disk whose log holds the blocks `ns` of `v`, and that holds `d` elsewhere.
record IsPending (start : ℕ) (ns : List ℕ) (v d : ℕ → Block) (s : Store) : Type 0 where
  committed : s.head ≡ ns
  logged : LogHolds v s.disk (start + 1) ns
  others : (a : ℕ) → IsHome start ns a → has a ns ≡ false → s.disk a ≡ d a

-- the disk with a transaction installed
abbrev pub installed : (ℕ → Block) → (ℕ → Block) → List ℕ → ℕ → Block
installed v d ns a = if has a ns then v a else d a

write_head_lem :
    (s : Store) (ns : List ℕ)
    → (s.power ≡ 0 → write_head s ns ≡ s)
      × (0 < s.power → ((write_head s ns).head ≡ ns) × ((write_head s ns).power ≡ s.power - 1))
      × ((write_head s ns).disk ≡ s.disk)
      × ((write_head s ns).cache ≡ s.cache)
unfolding write_head
write_head_lem s ns =
    (λ z. ground arith, λ p. (ground arith, ground arith), ground arith, ground arith)

-- Blocks of the transaction may have been written home.
IsPending-kept :
    (start : ℕ) (ns : List ℕ) (v d : ℕ → Block) (s s' : Store)
    → IsApart (start + 1) ns
    → s'.head ≡ s.head
    → ((a : ℕ) → has a ns ≡ false → s'.disk a ≡ s.disk a)
    → IsPending start ns v d s
    → IsPending start ns v d s'
unfolding IsApart
IsPending-kept start ns v d s s' w h kept p =
    let in_log : (a : ℕ) → start + 1 ≤ a → a < start + 1 + length ns → has a ns ≡ false = λ a lo hi.
      elim (Bool-cases (has a ns)) [
        | inl i ↦ absurd (elim (w a i) [ inl l ↦ omega (arith, l) | inr l ↦ omega (arith, l) ])
        | inr o ↦ o
      ] in
    record {
      committed = h ∙ p.committed;
      logged =
          LogHolds-frame v s.disk s'.disk (start + 1) ns (λ a lo hi. kept a (in_log a lo hi))
            p.logged;
      others = λ a home o. kept a o ∙ p.others a home o;
    }

-- `install_trans` and the `write_head` that erases the log, on a committed transaction
erase_installed :
    (start : ℕ) (ns : List ℕ) (v d : ℕ → Block) (s : Store)
    → IsApart (start + 1) ns
    → LogHolds v s.cache (start + 1) ns
    → IsPending start ns v d s
    → let s' = write_head (install_trans s (start + 1) ns) [] in
      (length ns < s.power → IsSettled start ns (installed v d ns) s')
      × (s.power ≤ length ns → IsPending start ns v d s')
erase_installed start ns v d s w c p =
    let s1 = install_trans s (start + 1) ns in
    let i = install_trans-IsInstalled v s (start + 1) ns w c in
    let (stops, goes, disk, cache) = write_head_lem s1 [] in
    (
      λ more.
          let (held, left) = i.full (omega arith) in
          record {
            erased = (goes (omega (arith, left))).0;
            holds = λ a home. elim (Bool-cases (has a ns)) [
              | inl inside ↦ rw inside (ap (λ f. f a) disk ∙ held a inside)
              | inr outside ↦
                  rw outside (ap (λ f. f a) disk ∙ i.kept a outside ∙ p.others a home outside)
            ];
          },
      λ few.
          let gone : s1.power ≡ 0 = elim (Bool-cases (ltb s.power (length ns))) [
            | inl less ↦ i.short (ground (arith, less))
            | inr same ↦
                (let left = (i.full (ground (arith, same, few))).1 in omega (arith, left, few))
          ] in
          subst (IsPending start ns v d) (sym (stops gone))
            (IsPending-kept start ns v d s s1 w i.head i.kept p),
    )

-- A disk as a crash of `commit` can leave it, or a later crash of the recovery.
IsRecoverable : ℕ → List ℕ → (ℕ → Block) → (ℕ → Block) → Store → Type 0
IsRecoverable start ns v d s =
    IsSettled start ns d s ⊎ (IsSettled start ns (installed v d ns) s ⊎ IsPending start ns v d s)

recover-IsSettled :
    (start : ℕ) (ns : List ℕ) (d : ℕ → Block) (s : Store) (power : ℕ)
    → IsSettled start ns d s
    → IsSettled start ns d (recover_from_log (reboot s power) start).0
unfolding recover_from_log install_trans write_head
recover-IsSettled start ns d s power w = rw w.erased (record {
  erased = ground (arith, w.erased);
  holds = λ a home. (let e = w.holds a home in ground (arith, e));
})

recover-IsPending :
    (start : ℕ) (ns : List ℕ) (v d : ℕ → Block) (s : Store) (power : ℕ)
    → IsApart (start + 1) ns
    → IsPending start ns v d s
    → (length ns < power
        → IsSettled start ns (installed v d ns) (recover_from_log (reboot s power) start).0)
      × (power ≤ length ns → IsPending start ns v d (recover_from_log (reboot s power) start).0)
unfolding recover_from_log
recover-IsPending start ns v d s power w p =
    let q : IsPending start ns v d (reboot s power) = record {
      committed = p.committed;
      logged = p.logged;
      others = p.others;
    } in
    subst
      (λ bs.
        let s' = write_head (install_trans (reboot s power) (start + 1) bs) [] in
        (length ns < power → IsSettled start ns (installed v d ns) s')
        × (power ≤ length ns → IsPending start ns v d s'))
      (sym p.committed) (erase_installed start ns v d (reboot s power) w p.logged q)

recover-IsRecoverable :
    (start : ℕ) (ns : List ℕ) (v d : ℕ → Block) (s : Store) (power : ℕ)
    → IsApart (start + 1) ns
    → IsRecoverable start ns v d s
    → IsRecoverable start ns v d (recover_from_log (reboot s power) start).0
      × (length ns < power
          → IsSettled start ns d (recover_from_log (reboot s power) start).0
            ⊎ IsSettled start ns (installed v d ns) (recover_from_log (reboot s power) start).0)
unfolding IsRecoverable
recover-IsRecoverable start ns v d s power w r = elim r [
  | inl old ↦ let o = recover-IsSettled start ns d s power old in (inl o, λ p. inl o)
  | inr r ↦ elim r [
    | inl new ↦
        let n = recover-IsSettled start ns (installed v d ns) s power new in
        (inr (inl n), λ p. inr n)
    | inr waits ↦
        let (more, few) = recover-IsPending start ns v d s power w waits in
        (
          elim (Bool-cases (ltb (length ns) power)) [
            | inl b ↦ inr (inl (more (ground (arith, b))))
            | inr b ↦ inr (inr (few (ground (arith, b))))
          ],
          λ p. inr (more p),
        )
  ]
]

-- The machine starts again, and recovers with power for so many disk writes, for each of the numbers.
pub restarts : ℕ → List ℕ → Store → Store
restarts start [] s = s
restarts start (p ∷ ps) s = restarts start ps (recover_from_log (reboot s p) start).0

restarts-IsRecoverable :
    (start : ℕ) (ns : List ℕ) (v d : ℕ → Block) (s : Store) (powers : List ℕ)
    → IsApart (start + 1) ns
    → IsRecoverable start ns v d s
    → IsRecoverable start ns v d (restarts start powers s)
unfolding restarts
restarts-IsRecoverable start ns v d s [] w r = r
restarts-IsRecoverable start ns v d s (p ∷ ps) w r =
    restarts-IsRecoverable start ns v d (recover_from_log (reboot s p) start).0 ps w
      (recover-IsRecoverable start ns v d s p w r).0

-- The power fails before the header is written.
crash_uncommitted :
    (s : Store) (start : ℕ) (ns : List ℕ)
    → s.head ≡ []
    → IsApart (start + 1) ns
    → s.power ≤ length ns
    → IsSettled start ns s.disk
        (write_head (install_trans (write_head (write_log s (start + 1) ns) ns) (start + 1) ns) [])
crash_uncommitted s start ns idle w p =
    let s1 = write_log s (start + 1) ns in
    let l = write_log-IsLogged s.cache s (start + 1) ns w (λ a i. refl) in
    let gone : s1.power ≡ 0 = elim (Bool-cases (ltb s.power (length ns))) [
      | inl less ↦ l.short (ground (arith, less))
      | inr same ↦ (let left = (l.full (ground (arith, same, p))).1 in omega (arith, left, p))
    ] in
    let i = install_trans-IsInstalled s.cache s1 (start + 1) ns w l.cached in
    let (off, same) = i.dead gone in
    subst (λ x. IsSettled start ns s.disk (write_head (install_trans x (start + 1) ns) []))
      (sym ((write_head_lem s1 ns).0 gone))
      (subst (IsSettled start ns s.disk)
        (sym ((write_head_lem (install_trans s1 (start + 1) ns) []).0 off))
        (record {
          erased = i.head ∙ l.head ∙ idle;
          holds = λ a home. same a ∙ (l.kept a (home-outside start a ns home)).0;
        }))

-- The header is written.
crash_committed :
    (s : Store) (start : ℕ) (ns : List ℕ)
    → IsApart (start + 1) ns
    → length ns < s.power
    → let s' =
        write_head (install_trans (write_head (write_log s (start + 1) ns) ns) (start + 1) ns) [] in
      (length ns + length ns + 1 < s.power → IsSettled start ns (installed s.cache s.disk ns) s')
      × (s.power ≤ length ns + length ns + 1 → IsPending start ns s.cache s.disk s')
crash_committed s start ns w enough =
    let s1 = write_log s (start + 1) ns in
    let l = write_log-IsLogged s.cache s (start + 1) ns w (λ a i. refl) in
    let (held, left) = l.full (omega arith) in
    let (stops, goes, disk, cache) = write_head_lem s1 ns in
    let (now, less) = goes (omega (arith, left)) in
    let s2 = write_head s1 ns in
    let p : IsPending start ns s.cache s.disk s2 = record {
      committed = now;
      logged = subst (λ f. LogHolds s.cache f (start + 1) ns) (sym disk) held;
      others = λ a home o. ap (λ f. f a) disk ∙ (l.kept a (home-outside start a ns home)).0;
    } in
    let c = subst (λ f. LogHolds s.cache f (start + 1) ns) (sym cache) l.cached in
    let (done, waits) = erase_installed start ns s.cache s.disk s2 w c p in
    (λ q. done (omega (arith, left, less, q)), λ q. waits (omega (arith, left, less, q)))

commit-IsRecoverable :
    (s : Store) (start n : ℕ) (blocks : List ℕ)
    → s.head ≡ []
    → IsApart (start + 1) (n ∷ blocks)
    → let ns = n ∷ blocks in
      let s' = (commit s start ns).0 in
      IsRecoverable start ns s.cache s.disk s'
      × (length ns + length ns + 1 < s.power → IsSettled start ns (installed s.cache s.disk ns) s')
unfolding commit IsRecoverable write_log install_trans
commit-IsRecoverable s start n blocks idle w =
    let ns = n ∷ blocks in
    elim (Bool-cases (ltb (length ns) s.power)) [
      | inl enough ↦
          let (done, waits) = crash_committed s start ns w (ground (arith, enough)) in
          (
            elim (Bool-cases (ltb (length ns + length ns + 1) s.power)) [
              | inl all ↦ inr (inl (done (ground (arith, all))))
              | inr part ↦ inr (inr (waits (ground (arith, part))))
            ],
            done,
          )
      | inr less ↦ (
        inl (crash_uncommitted s start ns idle w (ground (arith, less))),
        λ q. absurd (ground (arith, less, q)),
      )
    ]

-- Take a transaction whose blocks are neither in the log nor its header. Wherever the power fails
-- in its commit, and in any number of recoveries after it, a recovery with power for all its writes
-- leaves a disk with no transaction waiting on which the blocks outside the log and its header are
-- all as before the commit, or all as after it. With power for all the writes of the commit itself
-- they are as after it when it returns.
pub commit_atomic :
    (s : Store) (start n : ℕ) (blocks crashes : List ℕ) (power : ℕ)
    → s.head ≡ []
    → ((a : ℕ) → has a (n ∷ blocks) ≡ true → IsHome start (n ∷ blocks) a)
    → length (n ∷ blocks) < power
    → let ns = n ∷ blocks in
      let s' = (commit s start ns).0 in
      let after = (recover_from_log (reboot (restarts start crashes s') power) start).0 in
      (IsSettled start ns s.disk after ⊎ IsSettled start ns (installed s.cache s.disk ns) after)
      × (length ns + length ns + 1 < s.power → IsSettled start ns (installed s.cache s.disk ns) s')
commit_atomic s start n blocks crashes power idle homes more =
    let ns = n ∷ blocks in
    let w = homes-IsApart start ns homes in
    let (r, done) = commit-IsRecoverable s start n blocks idle w in
    let s' = (commit s start ns).0 in
    let r' = restarts-IsRecoverable start ns s.cache s.disk s' crashes w r in
    (
      (recover-IsRecoverable start ns s.cache s.disk (restarts start crashes s') power w r').1 more,
      done,
    )
