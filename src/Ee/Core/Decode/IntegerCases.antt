-- ===== src/Ee/Core/Decode/IntegerCases.antt =====
-- The switches of EeCoreInstruction::lookup, liborbum/src/Resources/Ee/Core/EeCoreInstruction.cpp, of the integer instructions:
-- the cases, with the index that each returns.
use orbum.Base.{ℕ, List, [], ◌∷◌}

-- opcode 0, by FUNCT
abbrev pub special_cases : List (ℕ × ℕ)
special_cases =
    (0, 0)
    ∷ (2, 1)
    ∷ (3, 2)
    ∷ (4, 3)
    ∷ (6, 4)
    ∷ (7, 5)
    ∷ (8, 6)
    ∷ (9, 7)
    ∷ (10, 8)
    ∷ (11, 9)
    ∷ (12, 10)
    ∷ (13, 11)
    ∷ (15, 12)
    ∷ (16, 13)
    ∷ (17, 14)
    ∷ (18, 15)
    ∷ (19, 16)
    ∷ (20, 17)
    ∷ (22, 18)
    ∷ (23, 19)
    ∷ (24, 20)
    ∷ (25, 21)
    ∷ (26, 22)
    ∷ (27, 23)
    ∷ (32, 24)
    ∷ (33, 25)
    ∷ (34, 26)
    ∷ (35, 27)
    ∷ (36, 28)
    ∷ (37, 29)
    ∷ (38, 30)
    ∷ (39, 31)
    ∷ (40, 32)
    ∷ (41, 33)
    ∷ (42, 34)
    ∷ (43, 35)
    ∷ (44, 36)
    ∷ (45, 37)
    ∷ (46, 38)
    ∷ (47, 39)
    ∷ (48, 40)
    ∷ (49, 41)
    ∷ (50, 42)
    ∷ (51, 43)
    ∷ (52, 44)
    ∷ (54, 45)
    ∷ (56, 46)
    ∷ (58, 47)
    ∷ (59, 48)
    ∷ (60, 49)
    ∷ (62, 50)
    ∷ (63, 51)
    ∷ []

-- opcode 1, by RT
abbrev pub regimm_cases : List (ℕ × ℕ)
regimm_cases =
    (0, 52)
    ∷ (1, 53)
    ∷ (2, 54)
    ∷ (3, 55)
    ∷ (8, 56)
    ∷ (9, 57)
    ∷ (10, 58)
    ∷ (11, 59)
    ∷ (12, 60)
    ∷ (14, 61)
    ∷ (16, 62)
    ∷ (17, 63)
    ∷ (18, 64)
    ∷ (19, 65)
    ∷ (24, 66)
    ∷ (25, 67)
    ∷ []

-- opcode 28, by FUNCT
abbrev pub mmi_cases : List (ℕ × ℕ)
mmi_cases =
    (0, 146)
    ∷ (1, 147)
    ∷ (4, 148)
    ∷ (16, 149)
    ∷ (17, 150)
    ∷ (18, 151)
    ∷ (19, 152)
    ∷ (24, 153)
    ∷ (25, 154)
    ∷ (26, 155)
    ∷ (27, 156)
    ∷ (32, 157)
    ∷ (33, 158)
    ∷ (48, 159)
    ∷ (49, 160)
    ∷ (52, 161)
    ∷ (54, 162)
    ∷ (55, 163)
    ∷ (60, 164)
    ∷ (62, 165)
    ∷ (63, 166)
    ∷ []

-- opcode 28 and FUNCT 8, by SHAMT
abbrev pub mmi0_cases : List (ℕ × ℕ)
mmi0_cases =
    (0, 68)
    ∷ (1, 69)
    ∷ (2, 70)
    ∷ (3, 71)
    ∷ (4, 72)
    ∷ (5, 73)
    ∷ (6, 74)
    ∷ (7, 75)
    ∷ (8, 76)
    ∷ (9, 77)
    ∷ (10, 78)
    ∷ (16, 79)
    ∷ (17, 80)
    ∷ (18, 81)
    ∷ (19, 82)
    ∷ (20, 83)
    ∷ (21, 84)
    ∷ (22, 85)
    ∷ (23, 86)
    ∷ (24, 87)
    ∷ (25, 88)
    ∷ (26, 89)
    ∷ (27, 90)
    ∷ (30, 91)
    ∷ (31, 92)
    ∷ []

-- opcode 28 and FUNCT 40, by SHAMT
abbrev pub mmi1_cases : List (ℕ × ℕ)
mmi1_cases =
    (1, 93)
    ∷ (2, 94)
    ∷ (3, 95)
    ∷ (4, 96)
    ∷ (5, 97)
    ∷ (6, 98)
    ∷ (7, 99)
    ∷ (10, 100)
    ∷ (16, 101)
    ∷ (17, 102)
    ∷ (18, 103)
    ∷ (20, 104)
    ∷ (21, 105)
    ∷ (22, 106)
    ∷ (24, 107)
    ∷ (25, 108)
    ∷ (26, 109)
    ∷ (27, 110)
    ∷ []

-- opcode 28 and FUNCT 9, by SHAMT
abbrev pub mmi2_cases : List (ℕ × ℕ)
mmi2_cases =
    (0, 111)
    ∷ (2, 112)
    ∷ (3, 113)
    ∷ (4, 114)
    ∷ (8, 115)
    ∷ (9, 116)
    ∷ (10, 117)
    ∷ (12, 118)
    ∷ (13, 119)
    ∷ (14, 120)
    ∷ (16, 121)
    ∷ (17, 122)
    ∷ (18, 123)
    ∷ (19, 124)
    ∷ (20, 125)
    ∷ (21, 126)
    ∷ (26, 127)
    ∷ (27, 128)
    ∷ (28, 129)
    ∷ (29, 130)
    ∷ (30, 131)
    ∷ (31, 132)
    ∷ []

-- opcode 28 and FUNCT 41, by SHAMT
abbrev pub mmi3_cases : List (ℕ × ℕ)
mmi3_cases =
    (0, 133)
    ∷ (3, 134)
    ∷ (8, 135)
    ∷ (9, 136)
    ∷ (10, 137)
    ∷ (12, 138)
    ∷ (13, 139)
    ∷ (14, 140)
    ∷ (18, 141)
    ∷ (19, 142)
    ∷ (26, 143)
    ∷ (27, 144)
    ∷ (30, 145)
    ∷ []
