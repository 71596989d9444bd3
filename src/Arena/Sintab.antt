-- ===== src/Arena/Sintab.antt =====
-- The sine table of src/arena/arena_sintab.h.
use bmhero_arena.Common.{List, [], ◌∷◌, ℤ, pos, negsuc}

abbrev pub arena_sintab : List ℤ
arena_sintab =
    pos 0
    ∷ pos 101
    ∷ pos 201
    ∷ pos 301
    ∷ pos 401
    ∷ pos 501
    ∷ pos 601
    ∷ pos 700
    ∷ pos 799
    ∷ pos 897
    ∷ pos 995
    ∷ pos 1092
    ∷ pos 1189
    ∷ pos 1285
    ∷ pos 1380
    ∷ pos 1474
    ∷ pos 1567
    ∷ pos 1660
    ∷ pos 1751
    ∷ pos 1842
    ∷ pos 1931
    ∷ pos 2019
    ∷ pos 2106
    ∷ pos 2191
    ∷ pos 2276
    ∷ pos 2359
    ∷ pos 2440
    ∷ pos 2520
    ∷ pos 2598
    ∷ pos 2675
    ∷ pos 2751
    ∷ pos 2824
    ∷ pos 2896
    ∷ pos 2967
    ∷ pos 3035
    ∷ pos 3102
    ∷ pos 3166
    ∷ pos 3229
    ∷ pos 3290
    ∷ pos 3349
    ∷ pos 3406
    ∷ pos 3461
    ∷ pos 3513
    ∷ pos 3564
    ∷ pos 3612
    ∷ pos 3659
    ∷ pos 3703
    ∷ pos 3745
    ∷ pos 3784
    ∷ pos 3822
    ∷ pos 3857
    ∷ pos 3889
    ∷ pos 3920
    ∷ pos 3948
    ∷ pos 3973
    ∷ pos 3996
    ∷ pos 4017
    ∷ pos 4036
    ∷ pos 4052
    ∷ pos 4065
    ∷ pos 4076
    ∷ pos 4085
    ∷ pos 4091
    ∷ pos 4095
    ∷ pos 4096
    ∷ pos 4095
    ∷ pos 4091
    ∷ pos 4085
    ∷ pos 4076
    ∷ pos 4065
    ∷ pos 4052
    ∷ pos 4036
    ∷ pos 4017
    ∷ pos 3996
    ∷ pos 3973
    ∷ pos 3948
    ∷ pos 3920
    ∷ pos 3889
    ∷ pos 3857
    ∷ pos 3822
    ∷ pos 3784
    ∷ pos 3745
    ∷ pos 3703
    ∷ pos 3659
    ∷ pos 3612
    ∷ pos 3564
    ∷ pos 3513
    ∷ pos 3461
    ∷ pos 3406
    ∷ pos 3349
    ∷ pos 3290
    ∷ pos 3229
    ∷ pos 3166
    ∷ pos 3102
    ∷ pos 3035
    ∷ pos 2967
    ∷ pos 2896
    ∷ pos 2824
    ∷ pos 2751
    ∷ pos 2675
    ∷ pos 2598
    ∷ pos 2520
    ∷ pos 2440
    ∷ pos 2359
    ∷ pos 2276
    ∷ pos 2191
    ∷ pos 2106
    ∷ pos 2019
    ∷ pos 1931
    ∷ pos 1842
    ∷ pos 1751
    ∷ pos 1660
    ∷ pos 1567
    ∷ pos 1474
    ∷ pos 1380
    ∷ pos 1285
    ∷ pos 1189
    ∷ pos 1092
    ∷ pos 995
    ∷ pos 897
    ∷ pos 799
    ∷ pos 700
    ∷ pos 601
    ∷ pos 501
    ∷ pos 401
    ∷ pos 301
    ∷ pos 201
    ∷ pos 101
    ∷ pos 0
    ∷ negsuc 100
    ∷ negsuc 200
    ∷ negsuc 300
    ∷ negsuc 400
    ∷ negsuc 500
    ∷ negsuc 600
    ∷ negsuc 699
    ∷ negsuc 798
    ∷ negsuc 896
    ∷ negsuc 994
    ∷ negsuc 1091
    ∷ negsuc 1188
    ∷ negsuc 1284
    ∷ negsuc 1379
    ∷ negsuc 1473
    ∷ negsuc 1566
    ∷ negsuc 1659
    ∷ negsuc 1750
    ∷ negsuc 1841
    ∷ negsuc 1930
    ∷ negsuc 2018
    ∷ negsuc 2105
    ∷ negsuc 2190
    ∷ negsuc 2275
    ∷ negsuc 2358
    ∷ negsuc 2439
    ∷ negsuc 2519
    ∷ negsuc 2597
    ∷ negsuc 2674
    ∷ negsuc 2750
    ∷ negsuc 2823
    ∷ negsuc 2895
    ∷ negsuc 2966
    ∷ negsuc 3034
    ∷ negsuc 3101
    ∷ negsuc 3165
    ∷ negsuc 3228
    ∷ negsuc 3289
    ∷ negsuc 3348
    ∷ negsuc 3405
    ∷ negsuc 3460
    ∷ negsuc 3512
    ∷ negsuc 3563
    ∷ negsuc 3611
    ∷ negsuc 3658
    ∷ negsuc 3702
    ∷ negsuc 3744
    ∷ negsuc 3783
    ∷ negsuc 3821
    ∷ negsuc 3856
    ∷ negsuc 3888
    ∷ negsuc 3919
    ∷ negsuc 3947
    ∷ negsuc 3972
    ∷ negsuc 3995
    ∷ negsuc 4016
    ∷ negsuc 4035
    ∷ negsuc 4051
    ∷ negsuc 4064
    ∷ negsuc 4075
    ∷ negsuc 4084
    ∷ negsuc 4090
    ∷ negsuc 4094
    ∷ negsuc 4095
    ∷ negsuc 4094
    ∷ negsuc 4090
    ∷ negsuc 4084
    ∷ negsuc 4075
    ∷ negsuc 4064
    ∷ negsuc 4051
    ∷ negsuc 4035
    ∷ negsuc 4016
    ∷ negsuc 3995
    ∷ negsuc 3972
    ∷ negsuc 3947
    ∷ negsuc 3919
    ∷ negsuc 3888
    ∷ negsuc 3856
    ∷ negsuc 3821
    ∷ negsuc 3783
    ∷ negsuc 3744
    ∷ negsuc 3702
    ∷ negsuc 3658
    ∷ negsuc 3611
    ∷ negsuc 3563
    ∷ negsuc 3512
    ∷ negsuc 3460
    ∷ negsuc 3405
    ∷ negsuc 3348
    ∷ negsuc 3289
    ∷ negsuc 3228
    ∷ negsuc 3165
    ∷ negsuc 3101
    ∷ negsuc 3034
    ∷ negsuc 2966
    ∷ negsuc 2895
    ∷ negsuc 2823
    ∷ negsuc 2750
    ∷ negsuc 2674
    ∷ negsuc 2597
    ∷ negsuc 2519
    ∷ negsuc 2439
    ∷ negsuc 2358
    ∷ negsuc 2275
    ∷ negsuc 2190
    ∷ negsuc 2105
    ∷ negsuc 2018
    ∷ negsuc 1930
    ∷ negsuc 1841
    ∷ negsuc 1750
    ∷ negsuc 1659
    ∷ negsuc 1566
    ∷ negsuc 1473
    ∷ negsuc 1379
    ∷ negsuc 1284
    ∷ negsuc 1188
    ∷ negsuc 1091
    ∷ negsuc 994
    ∷ negsuc 896
    ∷ negsuc 798
    ∷ negsuc 699
    ∷ negsuc 600
    ∷ negsuc 500
    ∷ negsuc 400
    ∷ negsuc 300
    ∷ negsuc 200
    ∷ negsuc 100
    ∷ []
