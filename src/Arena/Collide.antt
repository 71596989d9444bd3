-- ===== src/Arena/Collide.antt =====
-- The collision helpers of src/arena/arena_sim.c.
use bmhero_arena.Common.{
  Bool, ◌&&◌, ◌||◌, List, [], ◌∷◌, if◌then◌else◌, ℤ, pos, ◌+ℤ◌, ◌-ℤ◌, neg, ltb_ℤ, leb_ℤ,
}
use bmhero_arena.Arena.Math.{Vec3q, qmul, qdiv, qmin, qclamp, qlen2}
use bmhero_arena.Arena.Tuning.{tune_player_height}
use bmhero_arena.Arena.Geom.{Aabb, ArenaGeom}

abbrev pub on_ground : Vec3q → Vec3q → Bool
on_ground at vel = leb_ℤ at.y (pos 0) && leb_ℤ vel.y (pos 0)

-- The push along the face's normal, for a centre outside the box at distance d > 0.
abbrev push_out : Vec3q → ℤ → ℤ → ℤ → ℤ → Vec3q
push_out at r dx dz d = record at {
  x = at.x +ℤ qmul (qdiv dx d) (r -ℤ d);
  z = at.z +ℤ qmul (qdiv dz d) (r -ℤ d);
}

-- The push to the nearest face, for a centre inside the box.
abbrev eject : Vec3q → ℤ → Aabb → Vec3q
eject at r b =
    let lx = at.x -ℤ b.min.x in
    let rx = b.max.x -ℤ at.x in
    let lz = at.z -ℤ b.min.z in
    let rz = b.max.z -ℤ at.z in
    if leb_ℤ (qmin lx rx) (qmin lz rz)
    then record at { x = at.x +ℤ (if ltb_ℤ lx rx then neg (lx +ℤ r) else rx +ℤ r) }
    else record at { z = at.z +ℤ (if ltb_ℤ lz rz then neg (lz +ℤ r) else rz +ℤ r) }

unfoldable pub pushout_aabb : Vec3q → ℤ → Aabb → Vec3q
pushout_aabb at r b =
    let dx = at.x -ℤ qclamp at.x b.min.x b.max.x in
    let dz = at.z -ℤ qclamp at.z b.min.z b.max.z in
    let d = qlen2 dx dz in
    if leb_ℤ b.max.y at.y || leb_ℤ (at.y +ℤ tune_player_height) b.min.y
    then at
    else if leb_ℤ r d
    then at
    else if ltb_ℤ (pos 0) d
    then push_out at r dx dz d
    else eject at r b

abbrev pub push_all : ℤ → List Aabb → Vec3q → Vec3q
push_all r [] at = at
push_all r (b ∷ bs) at = push_all r bs (pushout_aabb at r b)

-- Position and velocity on one axis, against the walls at -l and l.
unfoldable pub wall_axis : ℤ → ℤ → ℤ → ℤ × ℤ
wall_axis p v l =
    let (p', v') =
      if ltb_ℤ p (neg l) then (neg l, (if ltb_ℤ v (pos 0) then pos 0 else v)) else (p, v) in
    if ltb_ℤ l p' then (l, (if ltb_ℤ (pos 0) v' then pos 0 else v')) else (p', v')

-- collide_static: the floor, the walls, then the pillars, which move only the position.
unfoldable pub collide_static : Vec3q → Vec3q → ℤ → ArenaGeom → ℤ → ℤ → Vec3q × Vec3q
collide_static at vel radius g wall_x wall_z =
    let below = ltb_ℤ at.y (pos 0) in
    let (x, vx) = wall_axis at.x vel.x (wall_x -ℤ radius) in
    let (z, vz) = wall_axis at.z vel.z (wall_z -ℤ radius) in
    let y = if below then pos 0 else at.y in
    let vy = if below && ltb_ℤ vel.y (pos 0) then pos 0 else vel.y in
    (push_all radius g.pillars (record { x = x; y = y; z = z }), record { x = vx; y = vy; z = vz })
