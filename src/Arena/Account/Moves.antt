-- ===== src/Arena/Account/Moves.antt =====
-- Steps that change the accounts: a bomb comes into play, leaves the hands, or goes.
use bmhero_arena.Common.{ℕ, suc, ◌+◌, ◌-◌, ◌<◌, ◌≡◌, ◌≢◌, ◌⊎◌, inl, inr, arith, ◌==◌, not, ◌&&◌}
use bmhero_arena.Arena.State.{
  arena_max_players, arena_max_bombs, ArenaPlayer, ArenaBomb, ArenaState, pstate_value,
  bstate_value, put_player, put_bomb,
}
use bmhero_arena.Arena.Account.{IsAccounted, is_owned, owned}
use bmhero_arena.Arena.Account.Count.{bit, count_update}

-- Only bomb k is written.
owned-put :
    (s : ArenaState) (k pi : ℕ) (b : ArenaBomb)
    → k < arena_max_bombs
    → owned (put_bomb s k b) pi + bit (is_owned s pi k)
      ≡ owned s pi + bit (not (bstate_value b.state == 0) && b.owner == pi)
owned-put s k pi b h =
    let r =
      count_update arena_max_bombs 0 k (is_owned s pi) (is_owned (put_bomb s k b) pi) (omega arith)
        h (λ j ne. ground arith) in
    ground arith

-- Bomb b at slot k, free so far, comes into play for player pi, in the hands or not.
pub record Enters (s : ArenaState) (pi k : ℕ) (p : ArenaPlayer) (b : ArenaBomb) : Type 0 where
  pub in_range : pi < arena_max_players
  pub slot : k < arena_max_bombs
  pub was_free : bstate_value (s.bombs k).state ≡ 0
  pub room : (s.players pi).live_bombs < 6
  pub used : bstate_value b.state ≢ 0
  pub mine : b.owner ≡ pi
  pub one_more : p.live_bombs ≡ (s.players pi).live_bombs + 1
  pub alive : pstate_value p.state ≢ 4
  pub hands :
      ((bstate_value b.state ≢ 1) × (p.held_bomb ≡ (s.players pi).held_bomb))
      ⊎ ((bstate_value b.state ≡ 1) × (p.held_bomb ≡ suc k) × ((s.players pi).held_bomb ≡ 0))

Enters-live :
    (s : ArenaState) (pi k : ℕ) (p : ArenaPlayer) (b : ArenaBomb)
    → IsAccounted s
    → Enters s pi k p b
    → (pj : ℕ) → pj < arena_max_players
    → ((put_player (put_bomb s k b) pi p).players pj).live_bombs
      ≡ owned (put_player (put_bomb s k b) pi p) pj
Enters-live s pi k p b v e pj h =
    let r = owned-put s k pj b e.slot in
    let old = v.live pj h in ground (arith, e.was_free, e.used, e.mine, e.one_more)

pub Enters-IsAccounted :
    (s : ArenaState) (pi k : ℕ) (p : ArenaPlayer) (b : ArenaBomb)
    → IsAccounted s
    → Enters s pi k p b
    → IsAccounted (put_player (put_bomb s k b) pi p)
Enters-IsAccounted s pi k p b v e = record {
  fits = v.fits;
  live = Enters-live s pi k p b v e;
  cap = λ pj h. ground (arith, v.cap pj h, e.one_more, e.room);
  holds = λ pj j h q. elim e.hands [
    | inl (loose, same) ↦ ground (arith, v.holds pj j h, v.holds pi j, e.was_free)
    | inr (taken, now, before) ↦ ground (arith, v.holds pj j h, e.was_free, e.slot, e.mine)
  ];
  carried = λ j h q. elim e.hands [
    | inl (loose, same) ↦ ground (arith, v.carried j h)
    | inr (taken, now, before) ↦ ground (arith, v.carried j h, e.in_range, e.mine)
  ];
  empty = λ pj h q. ground (arith, v.empty pj h, e.alive);
}

-- Bomb k, not held, goes off: it is free, and its owner has one less.
pub leaves-IsAccounted :
    (s : ArenaState) (k : ℕ)
    → IsAccounted s
    → k < arena_max_bombs
    → (b : ArenaBomb) (p : ArenaPlayer) → bstate_value (s.bombs k).state ≡ 4
    → bstate_value b.state ≡ 0
    → p.live_bombs ≡ (s.players (s.bombs k).owner).live_bombs - 1
    → p.held_bomb ≡ (s.players (s.bombs k).owner).held_bomb
    → pstate_value p.state ≡ pstate_value (s.players (s.bombs k).owner).state
    → IsAccounted (put_bomb (put_player s (s.bombs k).owner p) k b)
leaves-IsAccounted s k v h b p was now live held state = record {
  fits = v.fits;
  live = λ pj lt.
      let r = owned-put s k pj b h in let old = v.live pj lt in ground (arith, was, now, live);
  cap = λ pj lt. ground (arith, v.cap pj lt, live);
  holds = λ pj j lt q. ground (arith, v.holds pj j lt, was);
  carried = λ j lt q. ground (arith, v.carried j lt, now);
  empty = λ pj lt q. ground (arith, v.empty pj lt);
}

-- Player pi lets go of the held bomb, which stays in play.
pub lets_go-IsAccounted :
    (s : ArenaState) (pi : ℕ) (p : ArenaPlayer) (b : ArenaBomb) (k : ℕ)
    → IsAccounted s
    → pi < arena_max_players
    → (s.players pi).held_bomb ≡ suc k
    → bstate_value b.state ≢ 0
    → bstate_value b.state ≢ 1
    → b.owner ≡ (s.bombs k).owner
    → p.live_bombs ≡ (s.players pi).live_bombs
    → p.held_bomb ≡ 0
    → IsAccounted (put_player (put_bomb s k b) pi p)
lets_go-IsAccounted s pi p b k v h holds used free_hands mine live held =
    let (slot, is_held, whose) = v.holds pi k h holds in
    record {
      fits = v.fits;
      live = λ pj lt.
          let r = owned-put s k pj b slot in
          let old = v.live pj lt in ground (arith, is_held, used, mine, live);
      cap = λ pj lt. ground (arith, v.cap pj lt, live);
      holds = λ pj j lt q. ground (arith, v.holds pj j lt, v.holds pi k h holds, held);
      carried = λ j lt q. ground (arith, v.carried j lt);
      empty = λ pj lt q. ground (arith, v.empty pj lt, held);
    }

-- A player without a bomb may die.
pub empty_handed-IsAccounted :
    (s : ArenaState) (pi : ℕ) (p : ArenaPlayer)
    → IsAccounted s
    → (s.players pi).held_bomb ≡ 0
    → p.live_bombs ≡ (s.players pi).live_bombs
    → p.held_bomb ≡ 0
    → IsAccounted (put_player s pi p)
empty_handed-IsAccounted s pi p v before live held = record {
  fits = v.fits;
  live = λ pj lt. ground (arith, v.live pj lt);
  cap = λ pj lt. ground (arith, v.cap pj lt);
  holds = λ pj j lt q. ground (arith, v.holds pj j lt);
  carried = λ j lt q. ground (arith, v.carried j lt);
  empty = λ pj lt q. ground (arith, v.empty pj lt);
}
