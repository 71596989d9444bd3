-- ===== src/Arena/Tuning.antt =====
-- The constants of src/arena/arena_tuning.h: Q(x) is x * 4096, rounded to zero, in Q20.12.
use bmhero_arena.Common.{ℕ, ◌*◌, ℤ, pos, negsuc}

-- Q(0.151)
abbrev pub tune_run_speed : ℤ
tune_run_speed = pos 618

-- Q(0.0126)
abbrev pub tune_run_accel : ℤ
tune_run_accel = pos 51

-- Q(0.030)
abbrev pub tune_run_friction : ℤ
tune_run_friction = pos 122

-- Q(0.280)
abbrev pub tune_jump_impulse : ℤ
tune_jump_impulse = pos 1146

-- Q(0.0175)
abbrev pub tune_gravity : ℤ
tune_gravity = pos 71

-- Q(-0.403)
abbrev pub tune_terminal_vy : ℤ
tune_terminal_vy = negsuc 1649

-- Q(0.0084)
abbrev pub tune_air_control : ℤ
tune_air_control = pos 34

-- Q(0.35)
abbrev pub tune_player_radius : ℤ
tune_player_radius = pos 1433

-- Q(1.0)
abbrev pub tune_player_height : ℤ
tune_player_height = pos 4096

-- 0x0444
abbrev pub tune_turn_rate : ℕ
tune_turn_rate = 1092

-- Q(99.0)
abbrev pub tune_turn_snap_speed : ℤ
tune_turn_snap_speed = pos 405504

-- Q(0.18)
abbrev pub tune_throw_speed : ℤ
tune_throw_speed = pos 737

-- Q(0.12)
abbrev pub tune_throw_up : ℤ
tune_throw_up = pos 491

abbrev pub tune_spread_ticks : ℕ
tune_spread_ticks = 120

-- Q(0.095)
abbrev pub tune_spread_speed : ℤ
tune_spread_speed = pos 389

-- Q(0.055)
abbrev pub tune_spread_up : ℤ
tune_spread_up = pos 225

-- Q(0.165)
abbrev pub tune_kick_speed : ℤ
tune_kick_speed = pos 675

-- Q(0.02)
abbrev pub tune_kick_min_vel : ℤ
tune_kick_min_vel = pos 81

-- Q(0.30)
abbrev pub tune_bomb_radius : ℤ
tune_bomb_radius = pos 1228

-- Q(0.25)
abbrev pub tune_bomb_stand_gap : ℤ
tune_bomb_stand_gap = pos 1024

-- Q(0.0168)
abbrev pub tune_bomb_gravity : ℤ
tune_bomb_gravity = pos 68

-- Q(0.4167)
abbrev pub tune_airset_hand_y : ℤ
tune_airset_hand_y = pos 1706

-- Q(0.2667)
abbrev pub tune_airset_hand_fwd : ℤ
tune_airset_hand_fwd = pos 1092

-- Q(0.25)
abbrev pub tune_set_place_offset : ℤ
tune_set_place_offset = pos 1024

abbrev pub tune_airset_attach_ticks : ℕ
tune_airset_attach_ticks = 8

abbrev pub tune_fuse_ticks : ℕ
tune_fuse_ticks = 150

abbrev pub tune_max_live_bombs : ℕ
tune_max_live_bombs = 6

-- Q(1.60)
abbrev pub tune_blast_radius : ℤ
tune_blast_radius = pos 6553

abbrev pub tune_blast_ttl : ℕ
tune_blast_ttl = 20

abbrev pub tune_blast_grow_ticks : ℕ
tune_blast_grow_ticks = 12

-- Q(0.16)
abbrev pub tune_knockback : ℤ
tune_knockback = pos 655

-- Q(0.10)
abbrev pub tune_knockback_up : ℤ
tune_knockback_up = pos 409

abbrev pub tune_invuln_ticks : ℕ
tune_invuln_ticks = 60

abbrev pub tune_tumble_ticks : ℕ
tune_tumble_ticks = 30

abbrev pub tune_start_hp : ℕ
tune_start_hp = 4

abbrev pub tune_round_ticks : ℕ
tune_round_ticks = 120 * 60

abbrev pub tune_countdown_ticks : ℕ
tune_countdown_ticks = 3 * 60

abbrev pub tune_round_end_ticks : ℕ
tune_round_end_ticks = 3 * 60

abbrev pub tune_rounds_to_win : ℕ
tune_rounds_to_win = 3

abbrev pub tune_respawn_ticks : ℕ
tune_respawn_ticks = 120
