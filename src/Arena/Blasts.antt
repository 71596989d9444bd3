-- ===== src/Arena/Blasts.antt =====
-- The blasts' part of arena_tick of src/arena/arena_sim.c: growth, chains, damage.
use bmhero_arena.Common.{
  ℕ, zero, suc, ◌+◌, ◌-◌, Bool, not, ◌&&◌, ◌||◌, ltb, ◌==◌, if◌then◌else◌, update, u8, ℤ, pos, ◌+ℤ◌,
  ◌-ℤ◌, ◌*ℤ◌, ltb_ℤ, leb_ℤ, i32, quot,
}
use bmhero_arena.Arena.Math.{Vec3q, q_one, qmul, qdiv, qlen2, qlen3, no_vec}
use bmhero_arena.Arena.State.{
  arena_max_bombs, pstate_dead, pstate_tumble, bstate_airborne, bstate_settled, bstate_exploding,
  bstate_sliding, bstate_falling, ArenaPlayer, ArenaBomb, ArenaBlast, ArenaState, ◌==ₚ◌, ◌==ᵦ◌,
  put_player, put_bomb,
}
use bmhero_arena.Arena.Tuning

-- The radius after a tick.
abbrev pub blast_radius : ArenaBlast → ℤ
blast_radius bl =
    i32 (quot (Tuning.tune_blast_radius *ℤ pos bl.radius_t) (pos Tuning.tune_blast_grow_ticks))

unfoldable pub grow : ArenaBlast → ArenaBlast
grow bl = record bl {
  ttl = bl.ttl - 1;
  radius_t = if ltb bl.radius_t Tuning.tune_blast_grow_ticks then bl.radius_t + 1 else bl.radius_t;
}

abbrev chains : ArenaBomb → Bool
chains b =
    b.state ==ᵦ bstate_settled
    || b.state ==ᵦ bstate_airborne
    || b.state ==ᵦ bstate_sliding
    || b.state ==ᵦ bstate_falling

-- A bomb in reach goes off in the next pass.
unfoldable pub chain : ArenaBlast → ℤ → ArenaBomb → ArenaBomb
chain bl radius b =
    let d : Vec3q = record {
      x = b.pos.x -ℤ bl.center.x;
      y = b.pos.y -ℤ bl.center.y;
      z = b.pos.z -ℤ bl.center.z;
    } in
    if chains b && ltb_ℤ (qlen3 d) (radius +ℤ Tuning.tune_bomb_radius)
    then record b { state = bstate_exploding }
    else b

abbrev to_player : ArenaBlast → ArenaPlayer → Vec3q
to_player bl p = record {
  x = p.pos.x -ℤ bl.center.x;
  y = p.pos.y +ℤ pos 2048 -ℤ bl.center.y;
  z = p.pos.z -ℤ bl.center.z;
}

-- Whether the blast hurts the player.
abbrev pub hurts : ArenaBlast → ℤ → ArenaPlayer → Bool
hurts bl radius p =
    not (p.state ==ₚ pstate_dead || p.hp == 0)
    && not (not (p.state ==ₚ pstate_tumble) && ltb 0 p.timer)
    && not (p.state ==ₚ pstate_tumble)
    && not (leb_ℤ (radius +ℤ Tuning.tune_player_radius) (qlen3 (to_player bl p)))

-- The hit: damage, knockback, tumble or death. The held bomb is dropped by `drop_held`.
unfoldable pub hit : ArenaBlast → ArenaPlayer → ArenaPlayer
hit bl p =
    let d = to_player bl p in
    let dxz = qlen2 d.x d.z in
    let apart = ltb_ℤ (pos 0) dxz in
    let ux = if apart then qdiv d.x dxz else q_one in
    let uz = if apart then qdiv d.z dxz else pos 0 in
    let hp = p.hp - 1 in
    record p {
      hp = hp;
      vel = record {
        x = qmul ux Tuning.tune_knockback;
        y = Tuning.tune_knockback_up;
        z = qmul uz Tuning.tune_knockback;
      };
      state = if hp == 0 then pstate_dead else pstate_tumble;
      timer =
          if hp == 0
          then Tuning.tune_respawn_ticks
          else Tuning.tune_tumble_ticks + Tuning.tune_invuln_ticks;
      held_bomb = 0;
    }

-- The held bomb settles at the feet of player pi.
unfoldable pub dropped : ℕ → ArenaPlayer → ArenaBomb → ArenaBomb
dropped pi p b = record b {
  state = bstate_settled;
  fuse = Tuning.tune_fuse_ticks;
  pos = record p.pos { y = pos 0 };
  vel = no_vec;
  bounced = u8 (pi + 1);
}

unfoldable pub drop_held : ArenaState → ℕ → ArenaState
drop_held s pi =
    let p = s.players pi in
    let hi = p.held_bomb - 1 in
    if p.held_bomb == 0 then s else put_bomb s hi (dropped pi p (s.bombs hi))

-- The damage loop, from player pi on, with `left` to go.
unfoldable pub damage : ℕ → ℕ → ArenaBlast → ℤ → ArenaState → ArenaState
damage zero pi bl radius s = s
damage (suc left) pi bl radius s =
    let p = s.players pi in
    damage left (pi + 1) bl radius
      (if hurts bl radius p then put_player (drop_held s pi) pi (hit bl p) else s)

-- The body of the loop over the blasts.
unfoldable pub blast_tick : ArenaState → ℕ → ArenaState
blast_tick s i =
    let bl = grow (s.blasts i) in
    let radius = blast_radius bl in
    let chained = record s {
      blasts = update s.blasts i bl;
      bombs = λ k. if ltb k arena_max_bombs then chain bl radius (s.bombs k) else s.bombs k;
    } in
    if (s.blasts i).ttl == 0 then s else damage s.num_players 0 bl radius chained
