-- ===== src/Arena/BombTick.antt =====
-- The bombs' part of arena_tick of src/arena/arena_sim.c: what each state does in a tick.
use bmhero_arena.Common.{
  ℕ, zero, suc, ◌+◌, ◌-◌, Bool, not, ◌&&◌, ◌||◌, ◌==◌, if◌then◌else◌, any_below, u8, ℤ, pos, ◌+ℤ◌,
  ◌-ℤ◌, neg, ltb_ℤ, leb_ℤ, eqb_ℤ,
}
use bmhero_arena.Arena.Math.{Vec3q, qmul, qdiv, qclamp, qlen2, qlen3, qsin, qcos}
use bmhero_arena.Arena.State.{
  arena_max_bombs, pstate_dead, pstate_tumble, bstate_held, bstate_airborne, bstate_settled,
  bstate_exploding, bstate_sliding, bstate_falling, BState, ArenaPlayer, ArenaBomb, ArenaState,
  ◌==ₚ◌, ◌==ᵦ◌, put_player, put_bomb,
}
use bmhero_arena.Arena.Tuning
use bmhero_arena.Arena.Geom.{ArenaGeom}
use bmhero_arena.Arena.Collide.{collide_static}
use bmhero_arena.Arena.Player.{grounded}

-- TUNE_PLAYER_RADIUS + TUNE_BOMB_RADIUS, 2 * TUNE_BOMB_RADIUS and TUNE_PLAYER_HEIGHT / 2.
abbrev touch : ℤ
touch = pos 2661

abbrev two_radii : ℤ
two_radii = pos 2456

abbrev half_height : ℤ
half_height = pos 2048

-- touch + Q(0.1)
abbrev clear : ℤ
clear = pos 3070

abbrev explode : ArenaBomb → ArenaBomb
explode b = record b { state = bstate_exploding }

abbrev minus : Vec3q → Vec3q → Vec3q
minus a b = record { x = a.x -ℤ b.x; y = a.y -ℤ b.y; z = a.z -ℤ b.z }

abbrev flat_dist : ArenaBomb → ArenaPlayer → ℤ
flat_dist b p = qlen2 (b.pos.x -ℤ p.pos.x) (b.pos.z -ℤ p.pos.z)

-- Fuse and explosion, as a settled, sliding or falling bomb ends its tick.
unfoldable pub burn : ArenaBomb → ArenaBomb
burn b = let c = record b { fuse = b.fuse - 1 } in if c.fuse == 0 then explode c else c

abbrev lies : ArenaBomb → Bool
lies b = b.state ==ᵦ bstate_settled || b.state ==ᵦ bstate_sliding

-- BSTATE_HELD
unfoldable pub held_tick : ArenaState → ArenaBomb → ArenaBomb
held_tick s b =
    let p = s.players b.owner in
    record b { pos = record p.pos { y = p.pos.y +ℤ Tuning.tune_player_height } }

-- A thrown bomb meets a player: the thrower is spared.
abbrev hits_player : ArenaState → ArenaBomb → Bool
hits_player s b = any_below s.num_players λ pi.
    let p = s.players pi in
    let d = minus b.pos (record p.pos { y = p.pos.y +ℤ half_height }) in
    not (pi == b.owner && b.bounced == 0) && not (p.state ==ₚ pstate_dead) && ltb_ℤ (qlen3 d) touch

abbrev hits_bomb : ArenaState → ℕ → ArenaBomb → Bool
hits_bomb s i b = any_below arena_max_bombs λ bj.
    not (bj == i) && lies (s.bombs bj) && ltb_ℤ (qlen3 (minus b.pos (s.bombs bj).pos)) two_radii

abbrev moved : Vec3q → Vec3q → Bool
moved a b = not (eqb_ℤ a.x b.x && eqb_ℤ a.y b.y && eqb_ℤ a.z b.z)

abbrev moved_flat : Vec3q → Vec3q → Bool
moved_flat a b = not (eqb_ℤ a.x b.x && eqb_ℤ a.z b.z)

-- Walls, pillars and floor: any pushback explodes it.
unfoldable pub land : ArenaGeom → ℤ → ℤ → ArenaBomb → ArenaBomb
land g wall_x wall_z b =
    let (at, vel) = collide_static b.pos b.vel Tuning.tune_bomb_radius g wall_x wall_z in
    let c = record b { pos = at; vel = vel } in
    if moved at b.pos || moved vel b.vel
    then explode c
    else if leb_ℤ at.y (pos 0) && ltb_ℤ vel.y (pos 0)
    then explode (record c { pos = record at { y = pos 0 } })
    else c

-- BSTATE_AIRBORNE
unfoldable pub airborne_tick : ArenaState → ℕ → ArenaGeom → ℤ → ℤ → ArenaBomb → ArenaBomb
airborne_tick s i g wall_x wall_z b =
    let vy = b.vel.y -ℤ Tuning.tune_gravity in
    let c = record b {
      vel = record b.vel { y = vy };
      pos = record { x = b.pos.x +ℤ b.vel.x; y = b.pos.y +ℤ vy; z = b.pos.z +ℤ b.vel.z };
    } in
    if hits_player s c || hits_bomb s i c then explode c else land g wall_x wall_z c

-- BSTATE_FALLING while it rides the hands of its owner.
unfoldable pub ride : ArenaState → ℤ → ℤ → ArenaBomb → ArenaBomb
ride s wall_x wall_z b =
    let op = s.players b.owner in
    let bx = wall_x -ℤ Tuning.tune_bomb_radius in
    let bz = wall_z -ℤ Tuning.tune_bomb_radius in
    let attach = b.attach - 1 in
    record b {
      pos = record {
        x = qclamp (op.pos.x +ℤ qmul (qsin op.yaw) Tuning.tune_airset_hand_fwd) (neg bx) bx;
        y = op.pos.y +ℤ Tuning.tune_airset_hand_y;
        z = qclamp (op.pos.z -ℤ qmul (qcos op.yaw) Tuning.tune_airset_hand_fwd) (neg bz) bz;
      };
      attach = attach;
      vel = if attach == 0 then record b.vel { y = pos 0 } else b.vel;
    }

-- BSTATE_FALLING when it has left the hands.
unfoldable pub drop : ArenaBomb → ArenaBomb
drop b =
    let vy = b.vel.y -ℤ Tuning.tune_bomb_gravity in
    let y = b.pos.y +ℤ vy in
    if leb_ℤ y (pos 0)
    then record b {
      vel = record b.vel { y = pos 0 };
      pos = record b.pos { y = pos 0 };
      state = bstate_settled;
    }
    else record b { vel = record b.vel { y = vy }; pos = record b.pos { y = y } }

-- BSTATE_FALLING: an owner who cannot carry lets it go.
unfoldable pub falling_tick : ArenaState → ℤ → ℤ → ArenaBomb → ArenaBomb
falling_tick s wall_x wall_z b =
    let op = s.players b.owner in
    let lost = not (b.attach == 0) && (op.state ==ₚ pstate_dead || op.state ==ₚ pstate_tumble) in
    let c = if lost then record b { attach = 0; vel = record b.vel { y = pos 0 } } else b in
    burn (if not (c.attach == 0) then ride s wall_x wall_z c else drop c)

-- A sliding bomb meets the players from pj on, `left` of them: grace ends for a kicker who is
-- clear, and the first other one it touches explodes it.
unfoldable pub slide_players : ℕ → ℕ → ArenaState → ArenaBomb → ArenaBomb
slide_players zero pj s b = b
slide_players (suc left) pj s b =
    let p = s.players pj in
    let dist = flat_dist b p in
    let skipped = p.state ==ₚ pstate_dead || ltb_ℤ two_radii p.pos.y in
    let grace = b.bounced == u8 (pj + 1) in
    let c = if not skipped && grace && leb_ℤ clear dist then record b { bounced = 0 } else b in
    let rest = slide_players left (pj + 1) s c in
    if not skipped && not grace && ltb_ℤ dist touch then explode b else rest

abbrev slides_into : ArenaState → ℕ → ArenaBomb → Bool
slides_into s i b = any_below arena_max_bombs λ bj.
    let ob = s.bombs bj in
    not (bj == i) && lies ob && ltb_ℤ (qlen2 (b.pos.x -ℤ ob.pos.x) (b.pos.z -ℤ ob.pos.z)) two_radii

-- Walls and pillars: any pushback explodes it; else the fuse burns.
unfoldable pub bump : ArenaGeom → ℤ → ℤ → ArenaBomb → ArenaBomb
bump g wall_x wall_z b =
    let (at, vel) = collide_static b.pos b.vel Tuning.tune_bomb_radius g wall_x wall_z in
    let c = record b { pos = at; vel = vel } in
    if moved_flat at b.pos || moved_flat vel b.vel then explode c else burn c

-- BSTATE_SLIDING
unfoldable pub sliding_tick : ArenaState → ℕ → ArenaGeom → ℤ → ℤ → ArenaBomb → ArenaBomb
sliding_tick s i g wall_x wall_z b =
    let c =
      slide_players s.num_players 0 s
        (record b { pos = record b.pos { x = b.pos.x +ℤ b.vel.x; z = b.pos.z +ℤ b.vel.z } }) in
    if not (c.state ==ᵦ bstate_sliding)
    then c
    else if slides_into s i c
    then explode c
    else bump g wall_x wall_z c

-- Player pj kicks it along the facing.
unfoldable pub kicked : ArenaPlayer → ℕ → ArenaBomb → ArenaBomb
kicked p pj b = record b {
  state = bstate_sliding;
  pos = record b.pos { y = pos 0 };
  vel = record {
    x = qmul (qsin p.yaw) Tuning.tune_kick_speed;
    y = pos 0;
    z = neg (qmul (qcos p.yaw) Tuning.tune_kick_speed);
  };
  bounced = u8 (pj + 1);
}

-- The kick loop of BSTATE_SETTLED, from player pj on: the first who can kick it does.
unfoldable pub kick_players : ℕ → ℕ → ArenaState → ArenaBomb → ArenaBomb
kick_players zero pj s b = b
kick_players (suc left) pj s b =
    let p = s.players pj in
    let dist = flat_dist b p in
    let skipped = p.state ==ₚ pstate_dead || p.state ==ₚ pstate_tumble in
    let grace = b.bounced == u8 (pj + 1) in
    let c = if not skipped && grace && leb_ℤ clear dist then record b { bounced = 0 } else b in
    let rest = kick_players left (pj + 1) s c in
    if not skipped
      && not grace
      && ltb_ℤ dist touch
      && leb_ℤ p.pos.y half_height
      && leb_ℤ Tuning.tune_kick_min_vel (qlen2 p.vel.x p.vel.z)
    then kicked p pj b
    else rest

-- A grounded player is held at the stand gap from a settled bomb.
unfoldable pub stand_off : ArenaBomb → ArenaPlayer → ArenaPlayer
stand_off b p =
    let dx = p.pos.x -ℤ b.pos.x in
    let dz = p.pos.z -ℤ b.pos.z in
    let d = qlen2 dx dz in
    let push = Tuning.tune_bomb_stand_gap -ℤ d in
    if leb_ℤ Tuning.tune_bomb_stand_gap d
    then p
    else if ltb_ℤ (pos 0) d
    then record p {
      pos = record p.pos {
        x = p.pos.x +ℤ qmul (qdiv dx d) push;
        z = p.pos.z +ℤ qmul (qdiv dz d) push;
      };
    }
    else record p { pos = record p.pos { x = p.pos.x +ℤ Tuning.tune_bomb_stand_gap } }

-- The pushout loop of BSTATE_SETTLED, from player pj on.
unfoldable pub stand_players : ℕ → ℕ → ArenaBomb → ArenaState → ArenaState
stand_players zero pj b s = s
stand_players (suc left) pj b s =
    let p = s.players pj in
    let skipped = p.state ==ₚ pstate_dead || b.bounced == u8 (pj + 1) || not (grounded p) in
    stand_players left (pj + 1) b (put_player s pj (if skipped then p else stand_off b p))

-- BSTATE_SETTLED: the only state in which a bomb moves players.
unfoldable pub settled_tick : ArenaState → ℕ → ArenaBomb → ArenaState
settled_tick s i b =
    let c = kick_players s.num_players 0 s b in
    if not (c.state ==ᵦ bstate_settled)
    then put_bomb s i c
    else put_bomb (stand_players s.num_players 0 c s) i (burn c)

-- The switch of the bombs' loop.
unfoldable pub bomb_tick : ArenaState → ℕ → ArenaGeom → ℤ → ℤ → BState → ArenaState
bomb_tick s i g wall_x wall_z bstate_held = put_bomb s i (held_tick s (s.bombs i))
bomb_tick s i g wall_x wall_z bstate_airborne =
    put_bomb s i (airborne_tick s i g wall_x wall_z (s.bombs i))
bomb_tick s i g wall_x wall_z bstate_falling =
    put_bomb s i (falling_tick s wall_x wall_z (s.bombs i))
bomb_tick s i g wall_x wall_z bstate_sliding =
    put_bomb s i (sliding_tick s i g wall_x wall_z (s.bombs i))
bomb_tick s i g wall_x wall_z bstate_settled = settled_tick s i (s.bombs i)
bomb_tick s i g wall_x wall_z _ = s
