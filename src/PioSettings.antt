-- ===== src/PioSettings.antt =====
-- firmware/lib/modules/inc/pio_settings.h: the pulse widths that the step program can make, which
-- both sides index: `sety` and `nop` for its two loops, and the clock cycles that they take.
pub mod Table
use flexi_ninja.Prelude.{ℕ, List, [], get_or, ◌∷◌}

abbrev pub Setting : Type 0
Setting = ℕ × ℕ × ℕ

-- `sety`, `nop` and `high_cycles` of each entry.
unfoldable pub pio_settings : List Setting
pio_settings =
    (2, 2, 12)
    ∷ (2, 3, 15)
    ∷ (3, 2, 16)
    ∷ (2, 4, 18)
    ∷ (4, 2, 20)
    ∷ (2, 5, 21)
    ∷ (5, 2, 24)
    ∷ (4, 3, 25)
    ∷ (2, 7, 27)
    ∷ (6, 2, 28)
    ∷ (5, 3, 30)
    ∷ (7, 2, 32)
    ∷ (2, 9, 33)
    ∷ (6, 3, 35)
    ∷ (8, 2, 36)
    ∷ (2, 11, 39)
    ∷ (9, 2, 40)
    ∷ (6, 4, 42)
    ∷ (10, 2, 44)
    ∷ (8, 3, 45)
    ∷ (11, 2, 48)
    ∷ (6, 5, 49)
    ∷ (9, 3, 50)
    ∷ (2, 15, 51)
    ∷ (12, 2, 52)
    ∷ (8, 4, 54)
    ∷ (10, 3, 55)
    ∷ (13, 2, 56)
    ∷ (2, 17, 57)
    ∷ (14, 2, 60)
    ∷ (8, 5, 63)
    ∷ (15, 2, 64)
    ∷ (12, 3, 65)
    ∷ (10, 4, 66)
    ∷ (16, 2, 68)
    ∷ (2, 21, 69)
    ∷ (13, 3, 70)
    ∷ (17, 2, 72)
    ∷ (14, 3, 75)
    ∷ (18, 2, 76)
    ∷ (10, 5, 77)
    ∷ (12, 4, 78)
    ∷ (19, 2, 80)
    ∷ (8, 7, 81)
    ∷ (20, 2, 84)
    ∷ (16, 3, 85)
    ∷ (21, 2, 88)
    ∷ (17, 3, 90)
    ∷ (12, 5, 91)
    ∷ (22, 2, 92)
    ∷ (18, 3, 95)
    ∷ (23, 2, 96)
    ∷ (13, 5, 98)
    ∷ (10, 7, 99)
    ∷ (24, 2, 100)
    ∷ (16, 4, 102)
    ∷ (25, 2, 104)
    ∷ (20, 3, 105)
    ∷ (26, 2, 108)
    ∷ (21, 3, 110)
    ∷ (27, 2, 112)
    ∷ (18, 4, 114)
    ∷ (22, 3, 115)
    ∷ (28, 2, 116)
    ∷ (12, 7, 117)
    ∷ (16, 5, 119)
    ∷ (29, 2, 120)
    ∷ (10, 9, 121)
    ∷ (30, 2, 124)
    ∷ (24, 3, 125)
    ∷ (20, 4, 126)
    ∷ (31, 2, 128)
    ∷ (25, 3, 130)
    ∷ (21, 4, 132)
    ∷ (18, 5, 133)
    ∷ (26, 3, 135)
    ∷ (16, 6, 136)
    ∷ (22, 4, 138)
    ∷ (27, 3, 140)
    ∷ (12, 9, 143)
    ∷ (23, 4, 144)
    ∷ (28, 3, 145)
    ∷ (20, 5, 147)
    ∷ (29, 3, 150)
    ∷ (18, 6, 152)
    ∷ (16, 7, 153)
    ∷ (21, 5, 154)
    ∷ (30, 3, 155)
    ∷ (25, 4, 156)
    ∷ (31, 3, 160)
    ∷ (22, 5, 161)
    ∷ (26, 4, 162)
    ∷ (14, 9, 165)
    ∷ (27, 4, 168)
    ∷ (12, 11, 169)
    ∷ (16, 8, 170)
    ∷ (18, 7, 171)
    ∷ (28, 4, 174)
    ∷ (24, 5, 175)
    ∷ (21, 6, 176)
    ∷ (29, 4, 180)
    ∷ (25, 5, 182)
    ∷ (22, 6, 184)
    ∷ (30, 4, 186)
    ∷ (16, 9, 187)
    ∷ (26, 5, 189)
    ∷ (18, 8, 190)
    ∷ (31, 4, 192)
    ∷ (14, 11, 195)
    ∷ (27, 5, 196)
    ∷ (21, 7, 198)
    ∷ (24, 6, 200)
    ∷ (28, 5, 203)
    ∷ (16, 10, 204)
    ∷ (22, 7, 207)
    ∷ (25, 6, 208)
    ∷ (18, 9, 209)
    ∷ (29, 5, 210)
    ∷ (26, 6, 216)
    ∷ (30, 5, 217)
    ∷ (21, 8, 220)
    ∷ (16, 11, 221)
    ∷ (31, 5, 224)
    ∷ (24, 7, 225)
    ∷ (18, 10, 228)
    ∷ (22, 8, 230)
    ∷ (20, 9, 231)
    ∷ (28, 6, 232)
    ∷ (25, 7, 234)
    ∷ (16, 12, 238)
    ∷ (29, 6, 240)
    ∷ (21, 9, 242)
    ∷ (26, 7, 243)
    ∷ (18, 11, 247)
    ∷ (30, 6, 248)
    ∷ (24, 8, 250)
    ∷ (27, 7, 252)
    ∷ (22, 9, 253)
    ∷ (16, 13, 255)
    ∷ (31, 6, 256)
    ∷ (25, 8, 260)
    ∷ (28, 7, 261)
    ∷ (23, 9, 264)
    ∷ (18, 12, 266)
    ∷ (29, 7, 270)
    ∷ (16, 14, 272)
    ∷ (20, 11, 273)
    ∷ (24, 9, 275)
    ∷ (22, 10, 276)
    ∷ (30, 7, 279)
    ∷ (27, 8, 280)
    ∷ (18, 13, 285)
    ∷ (25, 9, 286)
    ∷ (31, 7, 288)
    ∷ (16, 15, 289)
    ∷ (28, 8, 290)
    ∷ (20, 12, 294)
    ∷ (26, 9, 297)
    ∷ (22, 11, 299)
    ∷ (29, 8, 300)
    ∷ (18, 14, 304)
    ∷ (17, 15, 306)
    ∷ (27, 9, 308)
    ∷ (30, 8, 310)
    ∷ (25, 10, 312)
    ∷ (20, 13, 315)
    ∷ (28, 9, 319)
    ∷ (31, 8, 320)
    ∷ (22, 12, 322)
    ∷ (18, 15, 323)
    ∷ (26, 10, 324)
    ∷ (24, 11, 325)
    ∷ (29, 9, 330)
    ∷ (27, 10, 336)
    ∷ (25, 11, 338)
    ∷ (19, 15, 340)
    ∷ (30, 9, 341)
    ∷ (18, 16, 342)
    ∷ (22, 13, 345)
    ∷ (28, 10, 348)
    ∷ (24, 12, 350)
    ∷ (26, 11, 351)
    ∷ (31, 9, 352)
    ∷ (20, 15, 357)
    ∷ (29, 10, 360)
    ∷ (18, 17, 361)
    ∷ (27, 11, 364)
    ∷ (22, 14, 368)
    ∷ (30, 10, 372)
    ∷ (21, 15, 374)
    ∷ (24, 13, 375)
    ∷ (28, 11, 377)
    ∷ (26, 12, 378)
    ∷ (19, 17, 380)
    ∷ (31, 10, 384)
    ∷ (29, 11, 390)
    ∷ (22, 15, 391)
    ∷ (27, 12, 392)
    ∷ (21, 16, 396)
    ∷ (20, 17, 399)
    ∷ (24, 14, 400)
    ∷ (30, 11, 403)
    ∷ (26, 13, 405)
    ∷ (28, 12, 406)
    ∷ (23, 15, 408)
    ∷ (22, 16, 414)
    ∷ (31, 11, 416)
    ∷ (21, 17, 418)
    ∷ (29, 12, 420)
    ∷ (24, 15, 425)
    ∷ (26, 14, 432)
    ∷ (30, 12, 434)
    ∷ (28, 13, 435)
    ∷ (22, 17, 437)
    ∷ (21, 18, 440)
    ∷ (20, 19, 441)
    ∷ (25, 15, 442)
    ∷ (31, 12, 448)
    ∷ (29, 13, 450)
    ∷ (23, 17, 456)
    ∷ (26, 15, 459)
    ∷ (22, 18, 460)
    ∷ (21, 19, 462)
    ∷ (28, 14, 464)
    ∷ (30, 13, 465)
    ∷ (25, 16, 468)
    ∷ (24, 17, 475)
    ∷ (27, 15, 476)
    ∷ (31, 13, 480)
    ∷ (22, 19, 483)
    ∷ (21, 20, 484)
    ∷ (26, 16, 486)
    ∷ (28, 15, 493)
    ∷ (25, 17, 494)
    ∷ (30, 14, 496)
    ∷ (24, 18, 500)
    ∷ (27, 16, 504)
    ∷ (22, 20, 506)
    ∷ (29, 15, 510)
    ∷ (31, 14, 512)
    ∷ (26, 17, 513)
    ∷ (25, 18, 520)
    ∷ (28, 16, 522)
    ∷ (24, 19, 525)
    ∷ (30, 15, 527)
    ∷ (23, 20, 528)
    ∷ (22, 21, 529)
    ∷ (27, 17, 532)
    ∷ (29, 16, 540)
    ∷ (31, 15, 544)
    ∷ (25, 19, 546)
    ∷ (24, 20, 550)
    ∷ (28, 17, 551)
    ∷ (23, 21, 552)
    ∷ (30, 16, 558)
    ∷ (27, 18, 560)
    ∷ (26, 19, 567)
    ∷ (29, 17, 570)
    ∷ (25, 20, 572)
    ∷ (24, 21, 575)
    ∷ (31, 16, 576)
    ∷ (28, 18, 580)
    ∷ (27, 19, 588)
    ∷ (30, 17, 589)
    ∷ (26, 20, 594)
    ∷ (25, 21, 598)
    ∷ (29, 18, 600)
    ∷ (31, 17, 608)
    ∷ (28, 19, 609)
    ∷ (27, 20, 616)
    ∷ (30, 18, 620)
    ∷ (26, 21, 621)
    ∷ (25, 22, 624)
    ∷ (24, 23, 625)
    ∷ (29, 19, 630)
    ∷ (28, 20, 638)
    ∷ (31, 18, 640)
    ∷ (27, 21, 644)
    ∷ (26, 22, 648)
    ∷ (25, 23, 650)
    ∷ (30, 19, 651)
    ∷ (29, 20, 660)
    ∷ (28, 21, 667)
    ∷ (31, 19, 672)
    ∷ (26, 23, 675)
    ∷ (30, 20, 682)
    ∷ (29, 21, 690)
    ∷ (28, 22, 696)
    ∷ (27, 23, 700)
    ∷ (31, 20, 704)
    ∷ (30, 21, 713)
    ∷ (29, 22, 720)
    ∷ (28, 23, 725)
    ∷ (31, 21, 736)
    ∷ (30, 22, 744)
    ∷ (29, 23, 750)
    ∷ (31, 22, 768)
    ∷ (30, 23, 775)
    ∷ (31, 23, 800)
    ∷ []

abbrev pub pio_settings_count : ℕ
pio_settings_count = 299

abbrev pub setting_at : ℕ → Setting
setting_at i = get_or pio_settings i (0, 0, 0)

abbrev pub sety : ℕ → ℕ
sety i = (setting_at i).0

abbrev pub nop : ℕ → ℕ
nop i = (setting_at i).1

abbrev pub high_cycles : ℕ → ℕ
high_cycles i = (setting_at i).2
