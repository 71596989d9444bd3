-- ===== src/Arena/Player.antt =====
-- player_tick of src/arena/arena_sim.c, without the part about bombs.
use bmhero_arena.Common.{
  ℕ, ◌-◌, Bool, not, ◌&&◌, ◌||◌, leb, ◌==◌, if◌then◌else◌, ℤ, pos, ◌+ℤ◌, ◌-ℤ◌, ◌*ℤ◌, neg, ltb_ℤ,
  leb_ℤ, eqb_ℤ, u16, u16_of, i16_of_u16, quot,
}
use bmhero_arena.Arena.Math.{q_one, qmul, qdiv, qclamp, qlen2, qsin, qcos, iatan2, no_vec}
use bmhero_arena.Arena.Input.{ain_stick_max, input_sx, input_sy, input_jump}
use bmhero_arena.Arena.State.{
  pstate_idle, pstate_run, pstate_jump, pstate_tumble, ArenaPlayer, ◌==ₚ◌,
}
use bmhero_arena.Arena.Tuning
use bmhero_arena.Arena.Geom.{ArenaGeom}
use bmhero_arena.Arena.Collide.{on_ground, collide_static}
use bmhero_arena.Arena.Bombs.{face_center}

abbrev pub grounded : ArenaPlayer → Bool
grounded p = on_ground p.pos p.vel

-- Player pi comes back.
unfoldable pub respawned : ArenaGeom → ℕ → ArenaPlayer → ArenaPlayer
respawned g pi p = record p {
  pos = g.spawns pi;
  vel = no_vec;
  hp = Tuning.tune_start_hp;
  state = pstate_idle;
  yaw = face_center (g.spawns pi);
  held_bomb = 0;
  timer = Tuning.tune_invuln_ticks;
}

-- A dead player's tick. TUNE_RESPAWN_TICKS is positive.
unfoldable pub dead_tick : Bool → ArenaGeom → ℕ → ℕ → ArenaPlayer → ArenaPlayer
dead_tick playing g pi input p =
    let q = record p { last_input = input } in
    let waited = record q { timer = q.timer - 1 } in
    if not playing then q else if waited.timer == 0 then respawned g pi waited else waited

-- Stick magnitude, up to 1.0.
abbrev pub stick_mag : ℕ → ℤ
stick_mag input =
    let mag =
      qlen2 (quot (input_sx input *ℤ q_one) ain_stick_max)
        (quot (input_sy input *ℤ q_one) ain_stick_max) in
    if ltb_ℤ q_one mag then q_one else mag

-- The facing: a snap at low speed, else a bounded turn.
unfoldable pub turn : ArenaPlayer → ℕ → ℕ
turn p target =
    let step = i16_of_u16 (u16 Tuning.tune_turn_rate) in
    let delta = i16_of_u16 (u16_of (pos target -ℤ pos p.yaw)) in
    let down = if ltb_ℤ step delta then step else delta in
    let up = if ltb_ℤ down (neg step) then neg step else down in
    if leb_ℤ (qlen2 p.vel.x p.vel.z) Tuning.tune_turn_snap_speed
    then target
    else u16_of (pos p.yaw +ℤ up)

-- The stick: the player with the new facing, and the target speed. The deadzone is Q(0.10).
unfoldable pub steer : Bool → ℕ → ArenaPlayer → ArenaPlayer × ℤ
steer playing input p =
    let mag = stick_mag input in
    if not (playing && not (p.state ==ₚ pstate_tumble))
    then (p, pos 0)
    else if not (ltb_ℤ (pos 409) mag)
    then (p, pos 0)
    else (
      record p { yaw = turn p (iatan2 (input_sx input *ℤ q_one) (neg (input_sy input) *ℤ q_one)) },
      qmul Tuning.tune_run_speed mag,
    )

-- The scalar speed approaches its target and is projected along the facing.
unfoldable pub accelerate : ℤ → ArenaPlayer → ArenaPlayer
accelerate target_speed p =
    let rate = if grounded p then Tuning.tune_run_accel else Tuning.tune_air_control in
    let acc =
      if eqb_ℤ target_speed (pos 0) && grounded p && not (p.state ==ₚ pstate_tumble)
      then Tuning.tune_run_friction
      else rate in
    let old = qlen2 p.vel.x p.vel.z in
    let speed = old +ℤ qclamp (target_speed -ℤ old) (neg acc) acc in
    if p.state ==ₚ pstate_tumble then p else record p {
      vel = record p.vel { x = qmul (qsin p.yaw) speed; z = neg (qmul (qcos p.yaw) speed) };
    }

-- The jump, on the button's edge.
unfoldable pub jump : Bool → ℕ → ℕ → ArenaPlayer → ArenaPlayer
jump playing input prev p =
    if playing
      && not (p.state ==ₚ pstate_tumble)
      && grounded p
      && input_jump input
      && not (input_jump prev)
      && not (not (p.held_bomb == 0) && leb Tuning.tune_spread_ticks p.timer)
    then record p { vel = record p.vel { y = Tuning.tune_jump_impulse }; state = pstate_jump }
    else p

-- Gravity, motion and the static geometry.
unfoldable pub integrate : ArenaGeom → ℤ → ℤ → ArenaPlayer → ArenaPlayer
integrate g wall_x wall_z p =
    let fall = p.vel.y -ℤ Tuning.tune_gravity in
    let vy = if ltb_ℤ fall Tuning.tune_terminal_vy then Tuning.tune_terminal_vy else fall in
    let (at, vel) =
      collide_static (record { x = p.pos.x +ℤ p.vel.x; y = p.pos.y +ℤ vy; z = p.pos.z +ℤ p.vel.z })
        (record p.vel { y = vy }) Tuning.tune_player_radius g wall_x wall_z in
    record p { pos = at; vel = vel }

-- The skid of a tumbling player.
unfoldable pub skid : ArenaPlayer → ArenaPlayer
skid p =
    let sp = qlen2 p.vel.x p.vel.z in
    let slower = sp -ℤ Tuning.tune_run_friction in
    let ns = if ltb_ℤ slower (pos 0) then pos 0 else slower in
    if grounded p && ltb_ℤ (pos 0) sp
    then record p {
      vel = record p.vel { x = qmul (qdiv p.vel.x sp) ns; z = qmul (qdiv p.vel.z sp) ns };
    }
    else p

unfoldable pub tumble : ArenaPlayer → ArenaPlayer
tumble p =
    let q = skid (record p { timer = p.timer - 1 }) in
    if leb q.timer Tuning.tune_invuln_ticks && grounded q
    then record q { state = pstate_idle; vel = record q.vel { x = pos 0; z = pos 0 } }
    else q

-- Running or idle by the speed, over Q(0.01); and invulnerability decays.
unfoldable pub walk : ArenaPlayer → ArenaPlayer
walk p = record p {
  state = if ltb_ℤ (pos 40) (qlen2 p.vel.x p.vel.z) then pstate_run else pstate_idle;
  timer = if p.held_bomb == 0 then p.timer - 1 else p.timer;
}

-- The state upkeep at the end of the tick.
unfoldable pub upkeep : ArenaPlayer → ArenaPlayer
upkeep p =
    if p.state ==ₚ pstate_tumble
    then tumble p
    else if p.state ==ₚ pstate_jump && grounded p
    then record p { state = pstate_idle }
    else if p.state ==ₚ pstate_idle || p.state ==ₚ pstate_run
    then walk p
    else p
