-- ===== src/Console/Typed.antt =====
-- A line typed at kernel/console.c: what `consoleintr` makes of ordinary characters and of the end.
use oshard.Common.{
  append_assoc, ℕ, suc, ◌+◌, ◌<◌, ◌≡◌, ◌≢◌, refl, ap, ap₂, ◌∙◌, true, false, not, ◌&&◌, ◌||◌, List,
  [], ◌∷◌, ◌++◌, arith, ◌==◌, ltb, inl, inr, length, length-append, ◌⊎◌,
}
use oshard.Console.{
  Console, consoleintr, line_feed, carriage_return, ctrl_d, ctrl_h, ctrl_p, ctrl_u, delete_key,
}
use oshard.Console.Edit.{ready, line, IsConsole}
use oshard.Console.View.{typed}
use oshard.Console.Typing.{consoleintr_lem}

-- the handler's runs for these characters, one after the other
unfoldable pub type_all : Console → List ℕ → Console
type_all s [] = s
type_all s (c ∷ cs) = type_all (consoleintr s c).console cs

-- A character that the handler stores as it is and that ends no line.
pub record IsOrdinary (c : ℕ) : Type 0 where
  pub is_char : c < 256
  pub not_nul : c ≢ 0
  pub not_ctrl_d : c ≢ ctrl_d
  pub not_ctrl_h : c ≢ ctrl_h
  pub not_line_feed : c ≢ line_feed
  pub not_return : c ≢ carriage_return
  pub not_ctrl_p : c ≢ ctrl_p
  pub not_ctrl_u : c ≢ ctrl_u
  pub not_delete : c ≢ delete_key

abbrev pub AllOrdinary : List ℕ → Type 0
AllOrdinary [] = Unit
AllOrdinary (c ∷ cs) = IsOrdinary c × AllOrdinary cs

typed_ordinary :
    (c : ℕ) (queue typing : List ℕ)
    → IsOrdinary c
    → suc (length queue + length typing) < 128
    → ((typed c queue typing).ready_after ≡ queue)
      × ((typed c queue typing).line_after ≡ typing ++ (c ∷ []))
unfolding typed
typed_ordinary c queue typing w room =
    let p : (c == ctrl_p) ≡ false = (let h = w.not_ctrl_p in ground arith) in
    let u : (c == ctrl_u) ≡ false = (let h = w.not_ctrl_u in ground arith) in
    let h : (c == ctrl_h || c == delete_key) ≡ false =
      (let a = w.not_ctrl_h in let b = w.not_delete in ground arith) in
    let k : (not (c == 0) && ltb (length queue + length typing) 128) ≡ true =
      (let a = w.not_nul in ground arith) in
    let r : (c == carriage_return) ≡ false = (let a = w.not_return in ground arith) in
    let e : (c == line_feed || c == ctrl_d || suc (length queue + length typing) == 128) ≡ false =
      (let a = w.not_line_feed in let b = w.not_ctrl_d in ground arith) in
    (rw (p, u, h, k, r, e) refl, rw (p, u, h, k, r, e) refl)

-- Return and ^D hand the line over.
unfoldable pub IsEnd : ℕ → ℕ → Type 0
IsEnd c kept = ((c ≡ carriage_return) × (kept ≡ line_feed)) ⊎ ((c ≡ ctrl_d) × (kept ≡ ctrl_d))

typed_end :
    (c kept : ℕ) (queue typing : List ℕ)
    → IsEnd c kept
    → length queue + length typing < 128
    → ((typed c queue typing).ready_after ≡ queue ++ (typing ++ (kept ∷ [])))
      × ((typed c queue typing).line_after ≡ [])
unfolding typed IsEnd
typed_end c kept queue typing ends room =
    let k : ltb (length queue + length typing) 128 ≡ true = ground arith in
    elim ends [
      | inl (e, f) ↦ rw (e, f) ((rw k refl), (rw k refl))
      | inr (e, f) ↦ rw (e, f) ((rw k refl), (rw k refl))
    ]

end_char : (c kept : ℕ) → IsEnd c kept → c < 256
unfolding IsEnd
end_char c kept ends = elim ends [ inl (e, f) ↦ omega arith | inr (e, f) ↦ omega arith ]

-- A line typed into a console in order, where there is room for it.
pub type_line :
    (body : List ℕ) (s : Console) (c kept : ℕ)
    → IsConsole s
    → AllOrdinary body
    → IsEnd c kept
    → length (ready s) + length (line s) + length body < 128
    → IsConsole (type_all s (body ++ (c ∷ [])))
      × (ready (type_all s (body ++ (c ∷ []))) ≡ ready s ++ (line s ++ (body ++ (kept ∷ []))))
      × (line (type_all s (body ++ (c ∷ []))) ≡ [])
unfolding type_all
type_line [] s c kept w plain ends room =
    let h = consoleintr_lem s c w (end_char c kept ends) in
    let (queue, typing) = typed_end c kept (ready s) (line s) ends (omega arith) in
    (h.keeps, h.ready_same ∙ queue, h.line_same ∙ typing)
type_line (x ∷ body) s c kept w (o, plain) ends room =
    let h = consoleintr_lem s x w o.is_char in
    let s' = (consoleintr s x).console in
    let (queue, typing) = typed_ordinary x (ready s) (line s) o (omega arith) in
    let same : ready s' ≡ ready s = h.ready_same ∙ queue in
    let longer : line s' ≡ line s ++ (x ∷ []) = h.line_same ∙ typing in
    let one = length-append (line s) (x ∷ []) in
    let a = ap length same in
    let b = ap length longer in
    let (w', more, gone) =
      type_line body s' c kept h.keeps plain ends (omega (arith, one, a, b, room)) in
    (
      w',
      more
          ∙ ap₂ (λ q t. q ++ (t ++ (body ++ (kept ∷ [])))) same longer
          ∙ ap (λ t. ready s ++ t) (append_assoc (line s) (x ∷ []) (body ++ (kept ∷ []))),
      gone,
    )
