-- ===== src/Transmission/Table.antt =====
-- firmware/lib/modules/inc/jump_table.h: the substitution table of the checksum.
use flexi_ninja.Prelude.{ℕ, refl, sym, ap, true, List, [], ltb, ==_iff, ltb→lt, get_or}
use flexi_ninja.Prelude.{every_below, every_below_apply, ◌<◌, ◌≡◌, ◌∙◌, ◌∷◌, ◌==◌}

unfoldable pub jump_table : List ℕ
jump_table =
    4 ∷ 125 ∷ 132 ∷ 156 ∷ 73 ∷ 146 ∷ 236 ∷ 187 ∷ 235 ∷ 34 ∷ 116 ∷ 211 ∷ 62 ∷ 164 ∷ 221 ∷ 40 ∷ 201
    ∷ 242 ∷ 37 ∷ 200 ∷ 99 ∷ 38 ∷ 39 ∷ 220 ∷ 24 ∷ 240 ∷ 74 ∷ 173 ∷ 231 ∷ 108 ∷ 16 ∷ 131 ∷ 55 ∷ 70
    ∷ 11 ∷ 179 ∷ 134 ∷ 166 ∷ 72 ∷ 105 ∷ 67 ∷ 160 ∷ 217 ∷ 1 ∷ 23 ∷ 56 ∷ 27 ∷ 189 ∷ 153 ∷ 183 ∷ 42
    ∷ 186 ∷ 79 ∷ 215 ∷ 7 ∷ 57 ∷ 122 ∷ 223 ∷ 111 ∷ 68 ∷ 84 ∷ 228 ∷ 107 ∷ 157 ∷ 253 ∷ 29 ∷ 65 ∷ 28
    ∷ 45 ∷ 118 ∷ 129 ∷ 93 ∷ 85 ∷ 43 ∷ 226 ∷ 60 ∷ 113 ∷ 204 ∷ 210 ∷ 97 ∷ 143 ∷ 76 ∷ 33 ∷ 247 ∷ 197
    ∷ 212 ∷ 91 ∷ 199 ∷ 21 ∷ 182 ∷ 13 ∷ 25 ∷ 232 ∷ 224 ∷ 41 ∷ 47 ∷ 246 ∷ 86 ∷ 140 ∷ 90 ∷ 69 ∷ 155
    ∷ 178 ∷ 147 ∷ 150 ∷ 49 ∷ 8 ∷ 181 ∷ 171 ∷ 188 ∷ 123 ∷ 218 ∷ 121 ∷ 227 ∷ 126 ∷ 109 ∷ 30 ∷ 19 ∷ 229
    ∷ 92 ∷ 195 ∷ 101 ∷ 251 ∷ 51 ∷ 162 ∷ 10 ∷ 83 ∷ 120 ∷ 20 ∷ 214 ∷ 248 ∷ 46 ∷ 152 ∷ 22 ∷ 198 ∷ 168
    ∷ 0 ∷ 115 ∷ 151 ∷ 159 ∷ 177 ∷ 66 ∷ 61 ∷ 209 ∷ 100 ∷ 239 ∷ 36 ∷ 222 ∷ 172 ∷ 233 ∷ 80 ∷ 216 ∷ 3
    ∷ 234 ∷ 58 ∷ 52 ∷ 161 ∷ 32 ∷ 250 ∷ 110 ∷ 124 ∷ 193 ∷ 127 ∷ 128 ∷ 194 ∷ 230 ∷ 165 ∷ 5 ∷ 35 ∷ 6
    ∷ 59 ∷ 225 ∷ 136 ∷ 54 ∷ 18 ∷ 149 ∷ 207 ∷ 104 ∷ 133 ∷ 148 ∷ 102 ∷ 184 ∷ 252 ∷ 196 ∷ 117 ∷ 103
    ∷ 14 ∷ 244 ∷ 174 ∷ 71 ∷ 95 ∷ 254 ∷ 192 ∷ 255 ∷ 75 ∷ 81 ∷ 94 ∷ 48 ∷ 98 ∷ 245 ∷ 203 ∷ 96 ∷ 237
    ∷ 26 ∷ 213 ∷ 135 ∷ 137 ∷ 238 ∷ 50 ∷ 9 ∷ 169 ∷ 130 ∷ 2 ∷ 88 ∷ 167 ∷ 138 ∷ 63 ∷ 190 ∷ 17 ∷ 205
    ∷ 106 ∷ 64 ∷ 12 ∷ 163 ∷ 154 ∷ 142 ∷ 202 ∷ 44 ∷ 176 ∷ 87 ∷ 119 ∷ 89 ∷ 170 ∷ 185 ∷ 241 ∷ 180 ∷ 144
    ∷ 15 ∷ 175 ∷ 139 ∷ 208 ∷ 249 ∷ 31 ∷ 78 ∷ 114 ∷ 82 ∷ 206 ∷ 112 ∷ 145 ∷ 53 ∷ 243 ∷ 141 ∷ 191 ∷ 219
    ∷ 77 ∷ 158 ∷ []

-- The index at which `jump_table` holds a byte.
inverse_table : List ℕ
inverse_table =
    136 ∷ 43 ∷ 212 ∷ 152 ∷ 0 ∷ 167 ∷ 169 ∷ 54 ∷ 106 ∷ 209 ∷ 125 ∷ 34 ∷ 222 ∷ 90 ∷ 186 ∷ 237 ∷ 30
    ∷ 218 ∷ 174 ∷ 117 ∷ 128 ∷ 88 ∷ 133 ∷ 44 ∷ 24 ∷ 91 ∷ 203 ∷ 46 ∷ 67 ∷ 65 ∷ 116 ∷ 242 ∷ 157 ∷ 82
    ∷ 9 ∷ 168 ∷ 146 ∷ 18 ∷ 21 ∷ 22 ∷ 15 ∷ 94 ∷ 50 ∷ 73 ∷ 227 ∷ 68 ∷ 131 ∷ 95 ∷ 197 ∷ 105 ∷ 208 ∷ 123
    ∷ 155 ∷ 249 ∷ 173 ∷ 32 ∷ 45 ∷ 55 ∷ 154 ∷ 170 ∷ 75 ∷ 142 ∷ 12 ∷ 216 ∷ 221 ∷ 66 ∷ 141 ∷ 40 ∷ 59
    ∷ 100 ∷ 33 ∷ 189 ∷ 38 ∷ 4 ∷ 26 ∷ 194 ∷ 81 ∷ 254 ∷ 243 ∷ 52 ∷ 150 ∷ 195 ∷ 245 ∷ 126 ∷ 60 ∷ 72
    ∷ 97 ∷ 229 ∷ 213 ∷ 231 ∷ 99 ∷ 86 ∷ 119 ∷ 71 ∷ 196 ∷ 190 ∷ 201 ∷ 79 ∷ 198 ∷ 20 ∷ 144 ∷ 121 ∷ 180
    ∷ 185 ∷ 177 ∷ 39 ∷ 220 ∷ 62 ∷ 29 ∷ 115 ∷ 159 ∷ 58 ∷ 247 ∷ 76 ∷ 244 ∷ 137 ∷ 10 ∷ 184 ∷ 69 ∷ 230
    ∷ 127 ∷ 112 ∷ 56 ∷ 110 ∷ 160 ∷ 1 ∷ 114 ∷ 162 ∷ 163 ∷ 70 ∷ 211 ∷ 31 ∷ 2 ∷ 178 ∷ 36 ∷ 205 ∷ 172
    ∷ 206 ∷ 215 ∷ 239 ∷ 98 ∷ 251 ∷ 225 ∷ 80 ∷ 236 ∷ 248 ∷ 5 ∷ 103 ∷ 179 ∷ 175 ∷ 104 ∷ 138 ∷ 132 ∷ 48
    ∷ 224 ∷ 101 ∷ 3 ∷ 63 ∷ 255 ∷ 139 ∷ 41 ∷ 156 ∷ 124 ∷ 223 ∷ 13 ∷ 166 ∷ 37 ∷ 214 ∷ 135 ∷ 210 ∷ 232
    ∷ 108 ∷ 148 ∷ 27 ∷ 188 ∷ 238 ∷ 228 ∷ 140 ∷ 102 ∷ 35 ∷ 235 ∷ 107 ∷ 89 ∷ 49 ∷ 181 ∷ 233 ∷ 51 ∷ 7
    ∷ 109 ∷ 47 ∷ 217 ∷ 252 ∷ 192 ∷ 161 ∷ 164 ∷ 120 ∷ 183 ∷ 84 ∷ 134 ∷ 87 ∷ 19 ∷ 16 ∷ 226 ∷ 200 ∷ 77
    ∷ 219 ∷ 246 ∷ 176 ∷ 240 ∷ 143 ∷ 78 ∷ 11 ∷ 85 ∷ 204 ∷ 129 ∷ 53 ∷ 151 ∷ 42 ∷ 111 ∷ 253 ∷ 23 ∷ 14
    ∷ 147 ∷ 57 ∷ 93 ∷ 171 ∷ 74 ∷ 113 ∷ 61 ∷ 118 ∷ 165 ∷ 28 ∷ 92 ∷ 149 ∷ 153 ∷ 8 ∷ 6 ∷ 202 ∷ 207
    ∷ 145 ∷ 25 ∷ 234 ∷ 17 ∷ 250 ∷ 187 ∷ 199 ∷ 96 ∷ 83 ∷ 130 ∷ 241 ∷ 158 ∷ 122 ∷ 182 ∷ 64 ∷ 191 ∷ 193
    ∷ []

abbrev pub entry : ℕ → ℕ
entry b = get_or jump_table b 0

inverse_checks : every_below 256 (λ x. get_or inverse_table (entry x) 0 == x) ≡ true
unfolding jump_table inverse_table every_below
inverse_checks = refl

inverse-entry : (x : ℕ) → x < 256 → get_or inverse_table (entry x) 0 ≡ x
inverse-entry x h =
    (==_iff _ x).0
      (every_below_apply 256 (λ y. get_or inverse_table (entry y) 0 == y) x inverse_checks h)

-- The table takes no two bytes to one.
pub entry_injective : (x y : ℕ) → x < 256 → y < 256 → entry x ≡ entry y → x ≡ y
entry_injective x y hx hy e =
    sym (inverse-entry x hx) ∙ ap (λ t. get_or inverse_table t 0) e ∙ inverse-entry y hy

entry_checks : every_below 256 (λ x. ltb (entry x) 256) ≡ true
unfolding jump_table every_below
entry_checks = refl

pub entry-lt : (x : ℕ) → x < 256 → entry x < 256
entry-lt x h = ltb→lt _ _ (every_below_apply 256 (λ y. ltb (entry y) 256) x entry_checks h)
