-- ===== src/Arena/Geom.antt =====
-- The static maps of src/arena/arena_geom.h.
use bmhero_arena.Common.{ℕ, List, [], ◌∷◌, ℤ, pos, negsuc, zero, suc, Array, ◌==◌, if◌then◌else◌}
use bmhero_arena.Arena.Math.{Vec3q}

pub record Aabb : Type 0 where
  pub min : Vec3q
  pub max : Vec3q

pub record ArenaGeom : Type 0 where
  pub half_x : ℤ
  pub half_z : ℤ
  pub pillars : List Aabb
  pub spawns : Array Vec3q

-- Four spawns at +-d.
abbrev corners : ℤ → ℤ → Array Vec3q
corners d n i =
    let at : ℤ → ℤ → Vec3q = λ x z. record { x = x; y = pos 0; z = z } in
    if i == 0 then at n n else if i == 1 then at d d else if i == 2 then at n d else at d n

-- Q(7.9167), spawns at Q(5.5).
abbrev pub arena_nitros_standin : ArenaGeom
arena_nitros_standin = record {
  half_x = pos 32426;
  half_z = pos 32426;
  pillars = [];
  spawns = corners (pos 22528) (negsuc 22527);
}

-- A pillar from height 0 to Q(1.5).
abbrev pillar : ℤ → ℤ → ℤ → ℤ → Aabb
pillar x z x' z' = record {
  min = record { x = x; y = pos 0; z = z };
  max = record { x = x'; y = pos 6144; z = z' };
}

-- Q(-2.5) to Q(-1.5), and Q(1.5) to Q(2.5).
abbrev pub classic_pillars : List Aabb
classic_pillars =
    pillar (negsuc 10239) (negsuc 10239) (negsuc 6143) (negsuc 6143)
    ∷ pillar (pos 6144) (negsuc 10239) (pos 10240) (negsuc 6143)
    ∷ pillar (negsuc 10239) (pos 6144) (negsuc 6143) (pos 10240)
    ∷ pillar (pos 6144) (pos 6144) (pos 10240) (pos 10240)
    ∷ []

-- Q(6.0), spawns at Q(4.5).
abbrev pub arena_classic : ArenaGeom
arena_classic = record {
  half_x = pos 24576;
  half_z = pos 24576;
  pillars = classic_pillars;
  spawns = corners (pos 18432) (negsuc 18431);
}

-- arena_geoms[]: two maps; an id beyond them is out of range in C, the second map here.
abbrev pub arena_geoms : ℕ → ArenaGeom
arena_geoms zero = arena_nitros_standin
arena_geoms (suc i) = arena_classic
