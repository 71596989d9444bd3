-- ===== src/Arena/Account/Same.antt =====
-- Steps that leave the accounts alone.
use bmhero_arena.Common.{ℕ, ◌≡◌, refl, ◌∙◌, sym, arith, ◌==◌}
use bmhero_arena.Arena.State.{
  arena_max_bombs, ArenaPlayer, ArenaBomb, ArenaState, pstate_value, bstate_value, put_player,
  put_bomb,
}
use bmhero_arena.Arena.Account.{IsAccounted, is_owned, owned}
use bmhero_arena.Arena.Account.Count.{count_same}

-- The bomb is the same for the accounts: free or not, held or not, and whose.
pub record SameBomb (b c : ArenaBomb) : Type 0 where
  pub free : (bstate_value c.state == 0) ≡ (bstate_value b.state == 0)
  pub held : (bstate_value c.state == 1) ≡ (bstate_value b.state == 1)
  pub owner : c.owner ≡ b.owner

pub record SamePlayer (p q : ArenaPlayer) : Type 0 where
  pub live : q.live_bombs ≡ p.live_bombs
  pub held : q.held_bomb ≡ p.held_bomb
  pub alive : pstate_value q.state ≡ 4 → pstate_value p.state ≡ 4

pub record Same (s t : ArenaState) : Type 0 where
  pub num : t.num_players ≡ s.num_players
  pub players : (pi : ℕ) → SamePlayer (s.players pi) (t.players pi)
  pub bombs : (k : ℕ) → SameBomb (s.bombs k) (t.bombs k)

pub SameBomb-refl : (b : ArenaBomb) → SameBomb b b
SameBomb-refl b = record { free = refl; held = refl; owner = refl }

pub SamePlayer-refl : (p : ArenaPlayer) → SamePlayer p p
SamePlayer-refl p = record { live = refl; held = refl; alive = λ e. e }

pub Same-refl : (s : ArenaState) → Same s s
Same-refl s = record {
  num = refl;
  players = λ pi. SamePlayer-refl (s.players pi);
  bombs = λ k. SameBomb-refl (s.bombs k);
}

pub Same-trans : (s t u : ArenaState) → Same s t → Same t u → Same s u
Same-trans s t u f g = record {
  num = g.num ∙ f.num;
  players = λ pi. record {
    live = (g.players pi).live ∙ (f.players pi).live;
    held = (g.players pi).held ∙ (f.players pi).held;
    alive = λ e. (f.players pi).alive ((g.players pi).alive e);
  };
  bombs = λ k. record {
    free = (g.bombs k).free ∙ (f.bombs k).free;
    held = (g.bombs k).held ∙ (f.bombs k).held;
    owner = (g.bombs k).owner ∙ (f.bombs k).owner;
  };
}

pub put_player-Same :
    (s : ArenaState) (pi : ℕ) (p : ArenaPlayer)
    → SamePlayer (s.players pi) p
    → Same s (put_player s pi p)
put_player-Same s pi p f = record {
  num = refl;
  players = λ k. record {
    live = ground (arith, f.live);
    held = ground (arith, f.held);
    alive = λ e. ground (arith, f.alive);
  };
  bombs = λ k. SameBomb-refl (s.bombs k);
}

pub put_bomb-Same :
    (s : ArenaState) (i : ℕ) (b : ArenaBomb) → SameBomb (s.bombs i) b → Same s (put_bomb s i b)
put_bomb-Same s i b f = record {
  num = refl;
  players = λ pi. SamePlayer-refl (s.players pi);
  bombs = λ k. record {
    free = ground (arith, f.free);
    held = ground (arith, f.held);
    owner = ground (arith, f.owner);
  };
}

owned-Same : (s t : ArenaState) (pi : ℕ) → Same s t → owned t pi ≡ owned s pi
owned-Same s t pi f =
    count_same arena_max_bombs 0 (is_owned t pi) (is_owned s pi)
      (λ j h g. rw ((f.bombs j).free, (f.bombs j).owner) refl)

pub Same-IsAccounted : (s t : ArenaState) → Same s t → IsAccounted s → IsAccounted t
Same-IsAccounted s t f v = record {
  fits = rw f.num v.fits;
  live = λ pi h. (f.players pi).live ∙ v.live pi h ∙ sym (owned-Same s t pi f);
  cap = λ pi h. rw (f.players pi).live (v.cap pi h);
  holds = λ pi k h e.
      ground (arith, (f.players pi).held, (f.bombs k).held, (f.bombs k).owner, v.holds pi k);
  carried = λ k h e.
      let held : bstate_value (s.bombs k).state ≡ 1 = ground (arith, (f.bombs k).held) in
      let (lt, mine) = v.carried k h held in
      rw (f.bombs k).owner (lt, (f.players (s.bombs k).owner).held ∙ mine);
  empty = λ pi h e. (f.players pi).held ∙ v.empty pi h ((f.players pi).alive e);
}
