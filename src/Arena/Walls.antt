-- ===== src/Arena/Walls.antt =====
-- What collide_static leaves on a map without pillars.
use bmhero_arena.Common.{◌≡◌, ◌⊎◌, arith, [], ℤ, pos, ◌-ℤ◌, neg, ◌≤ℤ◌}
use bmhero_arena.Arena.Math.{Vec3q}
use bmhero_arena.Arena.Geom.{ArenaGeom}
use bmhero_arena.Arena.Collide.{push_all, wall_axis, collide_static}

-- What a wall at distance l does on one axis: the position ends within l of the middle; one that
-- was within stays, with its velocity; the velocity is the old one or 0.
abbrev pub Bounded : ℤ → ℤ → ℤ → ℤ → ℤ → Type 0
Bounded l p v p' v' =
    (neg l ≤ℤ p')
    × (p' ≤ℤ l)
    × (neg l ≤ℤ p → p ≤ℤ l → (p' ≡ p) × (v' ≡ v))
    × ((v' ≡ v) ⊎ (v' ≡ pos 0))

wall_axis-Bounded : (p v l : ℤ) → pos 0 ≤ℤ l → Bounded l p v (wall_axis p v l).0 (wall_axis p v l).1
unfolding wall_axis neg
wall_axis-Bounded p v l h =
    (ground arith, ground arith, λ a b. (ground arith, ground arith), ground arith)

-- What collide_static leaves, on three axes.
abbrev pub Contained : Vec3q → Vec3q → ℤ → ℤ → Vec3q × Vec3q → Type 0
Contained at vel lx lz (at', vel') =
    (pos 0 ≤ℤ at'.y) × Bounded lx at.x vel.x at'.x vel'.x × Bounded lz at.z vel.z at'.z vel'.z

-- On a map without pillars, whatever position and velocity come in, collide_static leaves the
-- position on or above the floor and within the walls less the radius on both axes; on each axis
-- a position that was within them stays, with its velocity, and any other loses at most its
-- velocity.
pub collide_static-Bounded :
    (at vel : Vec3q) (radius : ℤ) (g : ArenaGeom) (wall_x wall_z : ℤ)
    → g.pillars ≡ []
    → pos 0 ≤ℤ (wall_x -ℤ radius)
    → pos 0 ≤ℤ (wall_z -ℤ radius)
    → Contained at vel
        (wall_x -ℤ radius)
        (wall_z -ℤ radius)
        (collide_static at vel radius g wall_x wall_z)
unfolding collide_static
collide_static-Bounded at vel radius g wall_x wall_z none_of hx hz =
    rw (none_of, push_all)
      (
        ground arith,
        wall_axis-Bounded at.x vel.x (wall_x -ℤ radius) hx,
        wall_axis-Bounded at.z vel.z (wall_z -ℤ radius) hz,
      )
