-- ===== src/Hud/Font.antt =====
-- core/src/latency_hud.cc: the table `kFont5x7`, a column of bits for each of five columns, from the space to `Z`.
use cast_mirror.Prelude.{ℕ, List, [], ◌∷◌}

abbrev pub font_5x7 : List (List ℕ)
font_5x7 =
    (0 ∷ 0 ∷ 0 ∷ 0 ∷ 0 ∷ [])
    ∷ (0 ∷ 0 ∷ 95 ∷ 0 ∷ 0 ∷ [])
    ∷ (0 ∷ 7 ∷ 0 ∷ 7 ∷ 0 ∷ [])
    ∷ (20 ∷ 127 ∷ 20 ∷ 127 ∷ 20 ∷ [])
    ∷ (36 ∷ 42 ∷ 127 ∷ 42 ∷ 18 ∷ [])
    ∷ (35 ∷ 19 ∷ 8 ∷ 100 ∷ 98 ∷ [])
    ∷ (54 ∷ 73 ∷ 85 ∷ 34 ∷ 80 ∷ [])
    ∷ (0 ∷ 5 ∷ 3 ∷ 0 ∷ 0 ∷ [])
    ∷ (0 ∷ 28 ∷ 34 ∷ 65 ∷ 0 ∷ [])
    ∷ (0 ∷ 65 ∷ 34 ∷ 28 ∷ 0 ∷ [])
    ∷ (20 ∷ 8 ∷ 62 ∷ 8 ∷ 20 ∷ [])
    ∷ (8 ∷ 8 ∷ 62 ∷ 8 ∷ 8 ∷ [])
    ∷ (0 ∷ 80 ∷ 48 ∷ 0 ∷ 0 ∷ [])
    ∷ (8 ∷ 8 ∷ 8 ∷ 8 ∷ 8 ∷ [])
    ∷ (0 ∷ 96 ∷ 96 ∷ 0 ∷ 0 ∷ [])
    ∷ (32 ∷ 16 ∷ 8 ∷ 4 ∷ 2 ∷ [])
    ∷ (62 ∷ 81 ∷ 73 ∷ 69 ∷ 62 ∷ [])
    ∷ (0 ∷ 66 ∷ 127 ∷ 64 ∷ 0 ∷ [])
    ∷ (66 ∷ 97 ∷ 81 ∷ 73 ∷ 70 ∷ [])
    ∷ (33 ∷ 65 ∷ 69 ∷ 75 ∷ 49 ∷ [])
    ∷ (24 ∷ 20 ∷ 18 ∷ 127 ∷ 16 ∷ [])
    ∷ (39 ∷ 69 ∷ 69 ∷ 69 ∷ 57 ∷ [])
    ∷ (60 ∷ 74 ∷ 73 ∷ 73 ∷ 48 ∷ [])
    ∷ (1 ∷ 113 ∷ 9 ∷ 5 ∷ 3 ∷ [])
    ∷ (54 ∷ 73 ∷ 73 ∷ 73 ∷ 54 ∷ [])
    ∷ (6 ∷ 73 ∷ 73 ∷ 41 ∷ 30 ∷ [])
    ∷ (0 ∷ 54 ∷ 54 ∷ 0 ∷ 0 ∷ [])
    ∷ (0 ∷ 86 ∷ 54 ∷ 0 ∷ 0 ∷ [])
    ∷ (8 ∷ 20 ∷ 34 ∷ 65 ∷ 0 ∷ [])
    ∷ (20 ∷ 20 ∷ 20 ∷ 20 ∷ 20 ∷ [])
    ∷ (0 ∷ 65 ∷ 34 ∷ 20 ∷ 8 ∷ [])
    ∷ (2 ∷ 1 ∷ 81 ∷ 9 ∷ 6 ∷ [])
    ∷ (50 ∷ 73 ∷ 121 ∷ 65 ∷ 62 ∷ [])
    ∷ (126 ∷ 17 ∷ 17 ∷ 17 ∷ 126 ∷ [])
    ∷ (127 ∷ 73 ∷ 73 ∷ 73 ∷ 54 ∷ [])
    ∷ (62 ∷ 65 ∷ 65 ∷ 65 ∷ 34 ∷ [])
    ∷ (127 ∷ 65 ∷ 65 ∷ 34 ∷ 28 ∷ [])
    ∷ (127 ∷ 73 ∷ 73 ∷ 73 ∷ 65 ∷ [])
    ∷ (127 ∷ 9 ∷ 9 ∷ 9 ∷ 1 ∷ [])
    ∷ (62 ∷ 65 ∷ 73 ∷ 73 ∷ 122 ∷ [])
    ∷ (127 ∷ 8 ∷ 8 ∷ 8 ∷ 127 ∷ [])
    ∷ (0 ∷ 65 ∷ 127 ∷ 65 ∷ 0 ∷ [])
    ∷ (32 ∷ 64 ∷ 65 ∷ 63 ∷ 1 ∷ [])
    ∷ (127 ∷ 8 ∷ 20 ∷ 34 ∷ 65 ∷ [])
    ∷ (127 ∷ 64 ∷ 64 ∷ 64 ∷ 64 ∷ [])
    ∷ (127 ∷ 2 ∷ 12 ∷ 2 ∷ 127 ∷ [])
    ∷ (127 ∷ 4 ∷ 8 ∷ 16 ∷ 127 ∷ [])
    ∷ (62 ∷ 65 ∷ 65 ∷ 65 ∷ 62 ∷ [])
    ∷ (127 ∷ 9 ∷ 9 ∷ 9 ∷ 6 ∷ [])
    ∷ (62 ∷ 65 ∷ 81 ∷ 33 ∷ 94 ∷ [])
    ∷ (127 ∷ 9 ∷ 25 ∷ 41 ∷ 70 ∷ [])
    ∷ (70 ∷ 73 ∷ 73 ∷ 73 ∷ 49 ∷ [])
    ∷ (1 ∷ 1 ∷ 127 ∷ 1 ∷ 1 ∷ [])
    ∷ (63 ∷ 64 ∷ 64 ∷ 64 ∷ 63 ∷ [])
    ∷ (31 ∷ 32 ∷ 64 ∷ 32 ∷ 31 ∷ [])
    ∷ (127 ∷ 32 ∷ 24 ∷ 32 ∷ 127 ∷ [])
    ∷ (99 ∷ 20 ∷ 8 ∷ 20 ∷ 99 ∷ [])
    ∷ (7 ∷ 8 ∷ 112 ∷ 8 ∷ 7 ∷ [])
    ∷ (97 ∷ 81 ∷ 73 ∷ 69 ∷ 67 ∷ [])
    ∷ []
