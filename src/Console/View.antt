-- ===== src/Console/View.antt =====
-- What a terminal promises to the one who types at it, with no ring and no counters: the bytes that
-- are ready to be read, and the line that is being typed.
use oshard.Common.{
  ℕ, zero, suc, ◌+◌, ◌-◌, Bool, true, false, not, ◌&&◌, ◌||◌, List, [], ◌∷◌, ◌++◌, ◌==◌, ltb,
  if◌then◌else◌, length,
}
use oshard.Console.{
  line_feed, carriage_return, ctrl_d, ctrl_h, ctrl_p, ctrl_u, delete_key, ReadEnd, returns, fails,
  sleeps,
}
use oshard.Console.Edit.{init}

-- what a character does: the two queues after it, the echo, and whether readers are woken and the
-- process list printed
pub record Typed : Type 0 where
  pub ready_after : List ℕ
  pub line_after : List ℕ
  pub echoed : List ℕ
  pub wakes : Bool
  pub dumps : Bool

-- a character rubbed out on the screen, `n` times
abbrev pub rubs : ℕ → List ℕ
rubs zero = []
rubs (suc n) = ctrl_h ∷ 32 ∷ ctrl_h ∷ rubs n

-- A kept character ends the line when it is a newline or ^D, or the last for which there is room.
abbrev pub keep : ℕ → List ℕ → List ℕ → Typed
keep c queue typing =
    let ends = c == line_feed || c == ctrl_d || suc (length queue + length typing) == 128 in
    record {
      ready_after = if ends then queue ++ (typing ++ (c ∷ [])) else queue;
      line_after = if ends then [] else typing ++ (c ∷ []);
      echoed = c ∷ [];
      wakes = ends;
      dumps = false;
    }

unfoldable pub typed : ℕ → List ℕ → List ℕ → Typed
typed c queue typing =
    if c == ctrl_p
    then record {
      ready_after = queue;
      line_after = typing;
      echoed = [];
      wakes = false;
      dumps = true;
    }
    else if c == ctrl_u
    then record {
      ready_after = queue;
      line_after = [];
      echoed = rubs (length typing);
      wakes = false;
      dumps = false;
    }
    else if c == ctrl_h || c == delete_key
    then record {
      ready_after = queue;
      line_after = init typing;
      echoed = if length typing == 0 then [] else rubs 1;
      wakes = false;
      dumps = false;
    }
    else if not (c == 0) && ltb (length queue + length typing) 128
    then keep (if c == carriage_return then line_feed else c) queue typing
    else record {
      ready_after = queue;
      line_after = typing;
      echoed = [];
      wakes = false;
      dumps = false;
    }

-- What a reader with `n` of `target` bytes to go takes from the ready bytes: how it ends, the bytes
-- it gets and those that stay.
unfoldable pub taken : ℕ → ℕ → Bool → (ℕ → ℕ → Bool) → List ℕ → ReadEnd × List ℕ × List ℕ
taken zero target killed copyout queue = (returns target, [], queue)
taken (suc n) target killed copyout [] =
    (if killed then (fails, [], []) else (sleeps (suc n), [], []))
taken (suc n) target killed copyout (c ∷ cs) =
    let rest = taken n target killed copyout cs in
    if c == ctrl_d
    then (returns (target - suc n), [], if ltb (suc n) target then c ∷ cs else cs)
    else if not (copyout (target - suc n) c)
    then (returns (target - suc n), [], cs)
    else if c == line_feed
    then (returns (target - n), c ∷ [], cs)
    else (rest.0, c ∷ rest.1, rest.2)
