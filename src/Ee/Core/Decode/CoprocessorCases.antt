-- ===== src/Ee/Core/Decode/CoprocessorCases.antt =====
-- The switches of EeCoreInstruction::lookup, liborbum/src/Resources/Ee/Core/EeCoreInstruction.cpp, of the coprocessors, and of the opcode:
-- the cases, with the index that each returns.
use orbum.Base.{ℕ, List, [], ◌∷◌}

-- opcode 16, by RS
abbrev pub cop0_cases : List (ℕ × ℕ)
cop0_cases = (0, 178) ∷ (4, 179) ∷ []

-- opcode 16 and RS 8, by RT
abbrev pub bc0_cases : List (ℕ × ℕ)
bc0_cases = (0, 167) ∷ (1, 168) ∷ (2, 169) ∷ (3, 170) ∷ []

-- opcode 16 and RS 16, by FUNCT
abbrev pub c0_cases : List (ℕ × ℕ)
c0_cases = (1, 171) ∷ (2, 172) ∷ (6, 173) ∷ (8, 174) ∷ (24, 175) ∷ (56, 176) ∷ (57, 177) ∷ []

-- opcode 17, by RS
abbrev pub cop1_cases : List (ℕ × ℕ)
cop1_cases = (0, 208) ∷ (2, 209) ∷ (4, 210) ∷ (6, 211) ∷ []

-- opcode 17 and RS 8, by RT
abbrev pub bc1_cases : List (ℕ × ℕ)
bc1_cases = (0, 180) ∷ (1, 181) ∷ (2, 182) ∷ (3, 183) ∷ []

-- opcode 17 and RS 16, by FUNCT
abbrev pub single_cases : List (ℕ × ℕ)
single_cases =
    (0, 184)
    ∷ (1, 185)
    ∷ (2, 186)
    ∷ (3, 187)
    ∷ (4, 188)
    ∷ (5, 189)
    ∷ (6, 190)
    ∷ (7, 191)
    ∷ (21, 192)
    ∷ (23, 193)
    ∷ (24, 194)
    ∷ (25, 195)
    ∷ (27, 196)
    ∷ (28, 197)
    ∷ (29, 198)
    ∷ (30, 199)
    ∷ (35, 200)
    ∷ (39, 201)
    ∷ (40, 202)
    ∷ (47, 203)
    ∷ (49, 204)
    ∷ (51, 205)
    ∷ (53, 206)
    ∷ []

-- opcode 17 and RS 20, by FUNCT
abbrev pub word_cases : List (ℕ × ℕ)
word_cases = (32, 207) ∷ []

-- opcode 18 and CO 0, by DEST
abbrev pub cop2_cases : List (ℕ × ℕ)
cop2_cases = (1, 216) ∷ (2, 217) ∷ (5, 218) ∷ (6, 219) ∷ []

-- opcode 18, CO 0 and DEST 8, by RT
abbrev pub bc2_cases : List (ℕ × ℕ)
bc2_cases = (0, 212) ∷ (1, 213) ∷ (2, 214) ∷ (3, 215) ∷ []

-- opcode 18 and CO 1, by FUNCT
abbrev pub macro_cases : List (ℕ × ℕ)
macro_cases =
    (0, 285)
    ∷ (1, 286)
    ∷ (2, 287)
    ∷ (3, 288)
    ∷ (4, 289)
    ∷ (5, 290)
    ∷ (6, 291)
    ∷ (7, 292)
    ∷ (8, 293)
    ∷ (9, 294)
    ∷ (10, 295)
    ∷ (11, 296)
    ∷ (12, 297)
    ∷ (13, 298)
    ∷ (14, 299)
    ∷ (15, 300)
    ∷ (16, 301)
    ∷ (17, 302)
    ∷ (18, 303)
    ∷ (19, 304)
    ∷ (20, 305)
    ∷ (21, 306)
    ∷ (22, 307)
    ∷ (23, 308)
    ∷ (24, 309)
    ∷ (25, 310)
    ∷ (26, 311)
    ∷ (27, 312)
    ∷ (28, 313)
    ∷ (29, 314)
    ∷ (30, 315)
    ∷ (31, 316)
    ∷ (32, 317)
    ∷ (33, 318)
    ∷ (34, 319)
    ∷ (35, 320)
    ∷ (36, 321)
    ∷ (37, 322)
    ∷ (38, 323)
    ∷ (39, 324)
    ∷ (40, 325)
    ∷ (41, 326)
    ∷ (42, 327)
    ∷ (43, 328)
    ∷ (44, 329)
    ∷ (45, 330)
    ∷ (46, 331)
    ∷ (47, 332)
    ∷ (48, 333)
    ∷ (49, 334)
    ∷ (50, 335)
    ∷ (52, 336)
    ∷ (53, 337)
    ∷ (56, 338)
    ∷ (57, 339)
    ∷ []

-- opcode 18, CO 1 and FUNCT 60, by SHAMT
abbrev pub macro60_cases : List (ℕ × ℕ)
macro60_cases =
    (0, 220)
    ∷ (1, 221)
    ∷ (2, 222)
    ∷ (3, 223)
    ∷ (4, 224)
    ∷ (5, 225)
    ∷ (6, 226)
    ∷ (7, 227)
    ∷ (8, 228)
    ∷ (9, 229)
    ∷ (10, 230)
    ∷ (11, 231)
    ∷ (12, 232)
    ∷ (13, 233)
    ∷ (14, 234)
    ∷ (15, 235)
    ∷ (16, 236)
    ∷ []

-- FUNCT 61
abbrev pub macro61_cases : List (ℕ × ℕ)
macro61_cases =
    (0, 237)
    ∷ (1, 238)
    ∷ (2, 239)
    ∷ (3, 240)
    ∷ (4, 241)
    ∷ (5, 242)
    ∷ (6, 243)
    ∷ (7, 244)
    ∷ (8, 245)
    ∷ (9, 246)
    ∷ (10, 247)
    ∷ (11, 248)
    ∷ (12, 249)
    ∷ (13, 250)
    ∷ (14, 251)
    ∷ (15, 252)
    ∷ (16, 253)
    ∷ []

-- FUNCT 62
abbrev pub macro62_cases : List (ℕ × ℕ)
macro62_cases =
    (0, 254)
    ∷ (1, 255)
    ∷ (2, 256)
    ∷ (3, 257)
    ∷ (4, 258)
    ∷ (5, 259)
    ∷ (6, 260)
    ∷ (7, 261)
    ∷ (8, 262)
    ∷ (9, 263)
    ∷ (10, 264)
    ∷ (11, 265)
    ∷ (13, 266)
    ∷ (14, 267)
    ∷ (15, 268)
    ∷ (16, 269)
    ∷ []

-- FUNCT 63
abbrev pub macro63_cases : List (ℕ × ℕ)
macro63_cases =
    (0, 270)
    ∷ (1, 271)
    ∷ (2, 272)
    ∷ (3, 273)
    ∷ (4, 274)
    ∷ (5, 275)
    ∷ (6, 276)
    ∷ (7, 277)
    ∷ (8, 278)
    ∷ (9, 279)
    ∷ (11, 280)
    ∷ (13, 281)
    ∷ (14, 282)
    ∷ (15, 283)
    ∷ (16, 284)
    ∷ []

-- the other opcodes
abbrev pub primary_cases : List (ℕ × ℕ)
primary_cases =
    (2, 340)
    ∷ (3, 341)
    ∷ (4, 342)
    ∷ (5, 343)
    ∷ (6, 344)
    ∷ (7, 345)
    ∷ (8, 346)
    ∷ (9, 347)
    ∷ (10, 348)
    ∷ (11, 349)
    ∷ (12, 350)
    ∷ (13, 351)
    ∷ (14, 352)
    ∷ (15, 353)
    ∷ (20, 354)
    ∷ (21, 355)
    ∷ (22, 356)
    ∷ (23, 357)
    ∷ (24, 358)
    ∷ (25, 359)
    ∷ (26, 360)
    ∷ (27, 361)
    ∷ (30, 362)
    ∷ (31, 363)
    ∷ (32, 364)
    ∷ (33, 365)
    ∷ (34, 366)
    ∷ (35, 367)
    ∷ (36, 368)
    ∷ (37, 369)
    ∷ (38, 370)
    ∷ (39, 371)
    ∷ (40, 372)
    ∷ (41, 373)
    ∷ (42, 374)
    ∷ (43, 375)
    ∷ (44, 376)
    ∷ (45, 377)
    ∷ (46, 378)
    ∷ (47, 379)
    ∷ (49, 380)
    ∷ (51, 381)
    ∷ (54, 382)
    ∷ (55, 383)
    ∷ (57, 384)
    ∷ (62, 385)
    ∷ (63, 386)
    ∷ []
