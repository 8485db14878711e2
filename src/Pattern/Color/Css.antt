-- ===== src/Pattern/Color/Css.antt =====
-- src/formatters/Pattern.cc: the table `kCSSColors`.
use logrin.Base.{List, [], ◌∷◌, Bytes, codes}
use logrin.Pattern.Color.Terminal.{Rgb, rgb}

pub record NamedColor : Type 0 where
  pub name : Bytes
  pub color : Rgb

abbrev named : Bytes → Rgb → NamedColor
named name color = record { name = name; color = color }

-- `kCSSColors`
unfoldable pub css_colors : List NamedColor
css_colors =
    named (codes "aliceblue") (rgb 240 248 255)
    ∷ named (codes "antiquewhite") (rgb 250 235 215)
    ∷ named (codes "aqua") (rgb 0 255 255)
    ∷ named (codes "aquamarine") (rgb 127 255 212)
    ∷ named (codes "azure") (rgb 240 255 255)
    ∷ named (codes "beige") (rgb 245 245 220)
    ∷ named (codes "bisque") (rgb 255 228 196)
    ∷ named (codes "black") (rgb 0 0 0)
    ∷ named (codes "blanchedalmond") (rgb 255 235 205)
    ∷ named (codes "blue") (rgb 0 0 255)
    ∷ named (codes "blueviolet") (rgb 138 43 226)
    ∷ named (codes "brown") (rgb 165 42 42)
    ∷ named (codes "burlywood") (rgb 222 184 135)
    ∷ named (codes "cadetblue") (rgb 95 158 160)
    ∷ named (codes "chartreuse") (rgb 127 255 0)
    ∷ named (codes "chocolate") (rgb 210 105 30)
    ∷ named (codes "coral") (rgb 255 127 80)
    ∷ named (codes "cornflowerblue") (rgb 100 149 237)
    ∷ named (codes "cornsilk") (rgb 255 248 220)
    ∷ named (codes "crimson") (rgb 220 20 60)
    ∷ named (codes "cyan") (rgb 0 255 255)
    ∷ named (codes "darkblue") (rgb 0 0 139)
    ∷ named (codes "darkcyan") (rgb 0 139 139)
    ∷ named (codes "darkgoldenrod") (rgb 184 134 11)
    ∷ named (codes "darkgray") (rgb 169 169 169)
    ∷ named (codes "darkgreen") (rgb 0 100 0)
    ∷ named (codes "darkgrey") (rgb 169 169 169)
    ∷ named (codes "darkkhaki") (rgb 189 183 107)
    ∷ named (codes "darkmagenta") (rgb 139 0 139)
    ∷ named (codes "darkolivegreen") (rgb 85 107 47)
    ∷ named (codes "darkorange") (rgb 255 140 0)
    ∷ named (codes "darkorchid") (rgb 153 50 204)
    ∷ named (codes "darkred") (rgb 139 0 0)
    ∷ named (codes "darksalmon") (rgb 233 150 122)
    ∷ named (codes "darkseagreen") (rgb 143 188 143)
    ∷ named (codes "darkslateblue") (rgb 72 61 139)
    ∷ named (codes "darkslategray") (rgb 47 79 79)
    ∷ named (codes "darkslategrey") (rgb 47 79 79)
    ∷ named (codes "darkturquoise") (rgb 0 206 209)
    ∷ named (codes "darkviolet") (rgb 148 0 211)
    ∷ named (codes "deeppink") (rgb 255 20 147)
    ∷ named (codes "deepskyblue") (rgb 0 191 255)
    ∷ named (codes "dimgray") (rgb 105 105 105)
    ∷ named (codes "dimgrey") (rgb 105 105 105)
    ∷ named (codes "dodgerblue") (rgb 30 144 255)
    ∷ named (codes "firebrick") (rgb 178 34 34)
    ∷ named (codes "floralwhite") (rgb 255 250 240)
    ∷ named (codes "forestgreen") (rgb 34 139 34)
    ∷ named (codes "fuchsia") (rgb 255 0 255)
    ∷ named (codes "gainsboro") (rgb 220 220 220)
    ∷ named (codes "ghostwhite") (rgb 248 248 255)
    ∷ named (codes "gold") (rgb 255 215 0)
    ∷ named (codes "goldenrod") (rgb 218 165 32)
    ∷ named (codes "gray") (rgb 128 128 128)
    ∷ named (codes "green") (rgb 0 128 0)
    ∷ named (codes "greenyellow") (rgb 173 255 47)
    ∷ named (codes "grey") (rgb 128 128 128)
    ∷ named (codes "honeydew") (rgb 240 255 240)
    ∷ named (codes "hotpink") (rgb 255 105 180)
    ∷ named (codes "indianred") (rgb 205 92 92)
    ∷ named (codes "indigo") (rgb 75 0 130)
    ∷ named (codes "ivory") (rgb 255 255 240)
    ∷ named (codes "khaki") (rgb 240 230 140)
    ∷ named (codes "lavender") (rgb 230 230 250)
    ∷ named (codes "lavenderblush") (rgb 255 240 245)
    ∷ named (codes "lawngreen") (rgb 124 252 0)
    ∷ named (codes "lemonchiffon") (rgb 255 250 205)
    ∷ named (codes "lightblue") (rgb 173 216 230)
    ∷ named (codes "lightcoral") (rgb 240 128 128)
    ∷ named (codes "lightcyan") (rgb 224 255 255)
    ∷ named (codes "lightgoldenrodyellow") (rgb 250 250 210)
    ∷ named (codes "lightgray") (rgb 211 211 211)
    ∷ named (codes "lightgreen") (rgb 144 238 144)
    ∷ named (codes "lightgrey") (rgb 211 211 211)
    ∷ named (codes "lightpink") (rgb 255 182 193)
    ∷ named (codes "lightsalmon") (rgb 255 160 122)
    ∷ named (codes "lightseagreen") (rgb 32 178 170)
    ∷ named (codes "lightskyblue") (rgb 135 206 250)
    ∷ named (codes "lightslategray") (rgb 119 136 153)
    ∷ named (codes "lightslategrey") (rgb 119 136 153)
    ∷ named (codes "lightsteelblue") (rgb 176 196 222)
    ∷ named (codes "lightyellow") (rgb 255 255 224)
    ∷ named (codes "lime") (rgb 0 255 0)
    ∷ named (codes "limegreen") (rgb 50 205 50)
    ∷ named (codes "linen") (rgb 250 240 230)
    ∷ named (codes "magenta") (rgb 255 0 255)
    ∷ named (codes "maroon") (rgb 128 0 0)
    ∷ named (codes "mediumaquamarine") (rgb 102 205 170)
    ∷ named (codes "mediumblue") (rgb 0 0 205)
    ∷ named (codes "mediumorchid") (rgb 186 85 211)
    ∷ named (codes "mediumpurple") (rgb 147 112 219)
    ∷ named (codes "mediumseagreen") (rgb 60 179 113)
    ∷ named (codes "mediumslateblue") (rgb 123 104 238)
    ∷ named (codes "mediumspringgreen") (rgb 0 250 154)
    ∷ named (codes "mediumturquoise") (rgb 72 209 204)
    ∷ named (codes "mediumvioletred") (rgb 199 21 133)
    ∷ named (codes "midnightblue") (rgb 25 25 112)
    ∷ named (codes "mintcream") (rgb 245 255 250)
    ∷ named (codes "mistyrose") (rgb 255 228 225)
    ∷ named (codes "moccasin") (rgb 255 228 181)
    ∷ named (codes "navajowhite") (rgb 255 222 173)
    ∷ named (codes "navy") (rgb 0 0 128)
    ∷ named (codes "oldlace") (rgb 253 245 230)
    ∷ named (codes "olive") (rgb 128 128 0)
    ∷ named (codes "olivedrab") (rgb 107 142 35)
    ∷ named (codes "orange") (rgb 255 165 0)
    ∷ named (codes "orangered") (rgb 255 69 0)
    ∷ named (codes "orchid") (rgb 218 112 214)
    ∷ named (codes "palegoldenrod") (rgb 238 232 170)
    ∷ named (codes "palegreen") (rgb 152 251 152)
    ∷ named (codes "paleturquoise") (rgb 175 238 238)
    ∷ named (codes "palevioletred") (rgb 219 112 147)
    ∷ named (codes "papayawhip") (rgb 255 239 213)
    ∷ named (codes "peachpuff") (rgb 255 218 185)
    ∷ named (codes "peru") (rgb 205 133 63)
    ∷ named (codes "pink") (rgb 255 192 203)
    ∷ named (codes "plum") (rgb 221 160 221)
    ∷ named (codes "powderblue") (rgb 176 224 230)
    ∷ named (codes "purple") (rgb 128 0 128)
    ∷ named (codes "rebeccapurple") (rgb 102 51 153)
    ∷ named (codes "red") (rgb 255 0 0)
    ∷ named (codes "rosybrown") (rgb 188 143 143)
    ∷ named (codes "royalblue") (rgb 65 105 225)
    ∷ named (codes "saddlebrown") (rgb 139 69 19)
    ∷ named (codes "salmon") (rgb 250 128 114)
    ∷ named (codes "sandybrown") (rgb 244 164 96)
    ∷ named (codes "seagreen") (rgb 46 139 87)
    ∷ named (codes "seashell") (rgb 255 245 238)
    ∷ named (codes "sienna") (rgb 160 82 45)
    ∷ named (codes "silver") (rgb 192 192 192)
    ∷ named (codes "skyblue") (rgb 135 206 235)
    ∷ named (codes "slateblue") (rgb 106 90 205)
    ∷ named (codes "slategray") (rgb 112 128 144)
    ∷ named (codes "slategrey") (rgb 112 128 144)
    ∷ named (codes "snow") (rgb 255 250 250)
    ∷ named (codes "springgreen") (rgb 0 255 127)
    ∷ named (codes "steelblue") (rgb 70 130 180)
    ∷ named (codes "tan") (rgb 210 180 140)
    ∷ named (codes "teal") (rgb 0 128 128)
    ∷ named (codes "thistle") (rgb 216 191 216)
    ∷ named (codes "tomato") (rgb 255 99 71)
    ∷ named (codes "turquoise") (rgb 64 224 208)
    ∷ named (codes "violet") (rgb 238 130 238)
    ∷ named (codes "wheat") (rgb 245 222 179)
    ∷ named (codes "white") (rgb 255 255 255)
    ∷ named (codes "whitesmoke") (rgb 245 245 245)
    ∷ named (codes "yellow") (rgb 255 255 0)
    ∷ named (codes "yellowgreen") (rgb 154 205 50)
    ∷ []
