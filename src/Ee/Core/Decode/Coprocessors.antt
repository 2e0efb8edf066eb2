-- ===== src/Ee/Core/Decode/Coprocessors.antt =====
-- EE_CORE_INSTRUCTION_TABLE of liborbum/src/Resources/Ee/Core/EeCoreInstruction.cpp: the entries of the coprocessors and of the primary opcodes,
-- from 178 to 386.
use orbum.Base.{List, [], ◌∷◌}
use orbum.Ee.Core.Decode.Info.{
  MipsInstructionInfo, info, cpi_cop_branch_delay, cpi_cop_branch_delay_likely, cpi_cop_default,
  cpi_r5900_branch, cpi_r5900_default, cpi_r5900_load, cpi_r5900_store,
}

unfoldable pub coprocessor_entries : List MipsInstructionInfo
coprocessor_entries =
    info 215 cpi_cop_default
    ∷ info 216 cpi_cop_default
    ∷ info 232 cpi_cop_default
    ∷ info 233 cpi_cop_branch_delay
    ∷ info 234 cpi_cop_branch_delay
    ∷ info 235 cpi_cop_branch_delay_likely
    ∷ info 236 cpi_cop_default
    ∷ info 237 cpi_cop_default
    ∷ info 238 cpi_cop_default
    ∷ info 239 cpi_cop_default
    ∷ info 240 cpi_cop_default
    ∷ info 241 cpi_cop_default
    ∷ info 242 cpi_cop_default
    ∷ info 243 cpi_cop_default
    ∷ info 244 cpi_cop_default
    ∷ info 245 cpi_cop_default
    ∷ info 246 cpi_cop_default
    ∷ info 247 cpi_cop_default
    ∷ info 248 cpi_cop_default
    ∷ info 249 cpi_cop_default
    ∷ info 250 cpi_cop_default
    ∷ info 251 cpi_cop_default
    ∷ info 252 cpi_cop_default
    ∷ info 253 cpi_cop_default
    ∷ info 254 cpi_cop_default
    ∷ info 255 cpi_cop_default
    ∷ info 256 cpi_cop_default
    ∷ info 257 cpi_cop_default
    ∷ info 258 cpi_cop_default
    ∷ info 259 cpi_cop_default
    ∷ info 228 cpi_cop_default
    ∷ info 229 cpi_cop_default
    ∷ info 230 cpi_cop_default
    ∷ info 231 cpi_cop_default
    ∷ info 264 cpi_cop_default
    ∷ info 265 cpi_cop_default
    ∷ info 266 cpi_cop_default
    ∷ info 267 cpi_cop_default
    ∷ info 260 cpi_cop_default
    ∷ info 261 cpi_cop_default
    ∷ info 262 cpi_cop_default
    ∷ info 263 cpi_cop_default
    ∷ info 323 cpi_cop_default
    ∷ info 324 cpi_cop_default
    ∷ info 325 cpi_cop_default
    ∷ info 326 cpi_cop_default
    ∷ info 327 cpi_cop_default
    ∷ info 328 cpi_cop_default
    ∷ info 329 cpi_cop_default
    ∷ info 330 cpi_cop_default
    ∷ info 331 cpi_cop_default
    ∷ info 332 cpi_cop_default
    ∷ info 333 cpi_cop_default
    ∷ info 334 cpi_cop_default
    ∷ info 335 cpi_cop_default
    ∷ info 336 cpi_cop_default
    ∷ info 337 cpi_cop_default
    ∷ info 338 cpi_cop_default
    ∷ info 339 cpi_cop_default
    ∷ info 340 cpi_cop_default
    ∷ info 341 cpi_cop_default
    ∷ info 342 cpi_cop_default
    ∷ info 343 cpi_cop_default
    ∷ info 344 cpi_cop_default
    ∷ info 345 cpi_cop_default
    ∷ info 346 cpi_cop_default
    ∷ info 347 cpi_cop_default
    ∷ info 348 cpi_cop_default
    ∷ info 349 cpi_cop_default
    ∷ info 350 cpi_cop_default
    ∷ info 351 cpi_cop_default
    ∷ info 352 cpi_cop_default
    ∷ info 353 cpi_cop_default
    ∷ info 354 cpi_cop_default
    ∷ info 355 cpi_cop_default
    ∷ info 356 cpi_cop_default
    ∷ info 357 cpi_cop_default
    ∷ info 358 cpi_cop_default
    ∷ info 359 cpi_cop_default
    ∷ info 360 cpi_cop_default
    ∷ info 361 cpi_cop_default
    ∷ info 362 cpi_cop_default
    ∷ info 363 cpi_cop_default
    ∷ info 364 cpi_cop_default
    ∷ info 365 cpi_cop_default
    ∷ info 366 cpi_cop_default
    ∷ info 367 cpi_cop_default
    ∷ info 368 cpi_cop_default
    ∷ info 369 cpi_cop_default
    ∷ info 370 cpi_cop_default
    ∷ info 371 cpi_cop_default
    ∷ info 372 cpi_cop_default
    ∷ info 373 cpi_cop_default
    ∷ info 374 cpi_cop_default
    ∷ info 375 cpi_cop_default
    ∷ info 376 cpi_cop_default
    ∷ info 377 cpi_cop_default
    ∷ info 378 cpi_cop_default
    ∷ info 379 cpi_cop_default
    ∷ info 380 cpi_cop_default
    ∷ info 381 cpi_cop_default
    ∷ info 382 cpi_cop_default
    ∷ info 383 cpi_cop_default
    ∷ info 384 cpi_cop_default
    ∷ info 385 cpi_cop_default
    ∷ info 386 cpi_cop_default
    ∷ info 387 cpi_cop_default
    ∷ info 268 cpi_cop_default
    ∷ info 269 cpi_cop_default
    ∷ info 270 cpi_cop_default
    ∷ info 271 cpi_cop_default
    ∷ info 272 cpi_cop_default
    ∷ info 273 cpi_cop_default
    ∷ info 274 cpi_cop_default
    ∷ info 275 cpi_cop_default
    ∷ info 276 cpi_cop_default
    ∷ info 277 cpi_cop_default
    ∷ info 278 cpi_cop_default
    ∷ info 279 cpi_cop_default
    ∷ info 280 cpi_cop_default
    ∷ info 281 cpi_cop_default
    ∷ info 282 cpi_cop_default
    ∷ info 283 cpi_cop_default
    ∷ info 284 cpi_cop_default
    ∷ info 285 cpi_cop_default
    ∷ info 286 cpi_cop_default
    ∷ info 287 cpi_cop_default
    ∷ info 288 cpi_cop_default
    ∷ info 289 cpi_cop_default
    ∷ info 290 cpi_cop_default
    ∷ info 291 cpi_cop_default
    ∷ info 292 cpi_cop_default
    ∷ info 293 cpi_cop_default
    ∷ info 294 cpi_cop_default
    ∷ info 295 cpi_cop_default
    ∷ info 296 cpi_cop_default
    ∷ info 297 cpi_cop_default
    ∷ info 298 cpi_cop_default
    ∷ info 299 cpi_cop_default
    ∷ info 300 cpi_cop_default
    ∷ info 301 cpi_cop_default
    ∷ info 302 cpi_cop_default
    ∷ info 303 cpi_cop_default
    ∷ info 304 cpi_cop_default
    ∷ info 305 cpi_cop_default
    ∷ info 306 cpi_cop_default
    ∷ info 307 cpi_cop_default
    ∷ info 308 cpi_cop_default
    ∷ info 309 cpi_cop_default
    ∷ info 310 cpi_cop_default
    ∷ info 311 cpi_cop_default
    ∷ info 312 cpi_cop_default
    ∷ info 313 cpi_cop_default
    ∷ info 314 cpi_cop_default
    ∷ info 315 cpi_cop_default
    ∷ info 316 cpi_cop_default
    ∷ info 317 cpi_cop_default
    ∷ info 318 cpi_cop_default
    ∷ info 319 cpi_cop_default
    ∷ info 320 cpi_cop_default
    ∷ info 321 cpi_cop_default
    ∷ info 322 cpi_cop_default
    ∷ info 1 cpi_r5900_branch
    ∷ info 2 cpi_r5900_branch
    ∷ info 3 cpi_r5900_branch
    ∷ info 4 cpi_r5900_branch
    ∷ info 5 cpi_r5900_branch
    ∷ info 6 cpi_r5900_branch
    ∷ info 7 cpi_r5900_default
    ∷ info 8 cpi_r5900_default
    ∷ info 9 cpi_r5900_default
    ∷ info 10 cpi_r5900_default
    ∷ info 11 cpi_r5900_default
    ∷ info 12 cpi_r5900_default
    ∷ info 13 cpi_r5900_default
    ∷ info 14 cpi_r5900_default
    ∷ info 15 cpi_r5900_branch
    ∷ info 16 cpi_r5900_branch
    ∷ info 17 cpi_r5900_branch
    ∷ info 18 cpi_r5900_branch
    ∷ info 19 cpi_r5900_default
    ∷ info 20 cpi_r5900_default
    ∷ info 21 cpi_r5900_load
    ∷ info 22 cpi_r5900_load
    ∷ info 23 cpi_r5900_load
    ∷ info 24 cpi_r5900_store
    ∷ info 25 cpi_r5900_load
    ∷ info 26 cpi_r5900_load
    ∷ info 27 cpi_r5900_load
    ∷ info 28 cpi_r5900_load
    ∷ info 29 cpi_r5900_load
    ∷ info 30 cpi_r5900_load
    ∷ info 31 cpi_r5900_load
    ∷ info 32 cpi_r5900_load
    ∷ info 33 cpi_r5900_store
    ∷ info 34 cpi_r5900_store
    ∷ info 35 cpi_r5900_store
    ∷ info 36 cpi_r5900_store
    ∷ info 37 cpi_r5900_store
    ∷ info 38 cpi_r5900_store
    ∷ info 39 cpi_r5900_store
    ∷ info 40 cpi_r5900_default
    ∷ info 41 cpi_r5900_load
    ∷ info 42 cpi_r5900_default
    ∷ info 43 cpi_r5900_load
    ∷ info 44 cpi_r5900_load
    ∷ info 45 cpi_r5900_store
    ∷ info 46 cpi_r5900_store
    ∷ info 47 cpi_r5900_store
    ∷ []
