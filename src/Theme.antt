-- ===== src/Theme.antt =====
-- theme.go: the colors.
use ssh_tunnel_manager.Common.{ℕ}

-- `color.NRGBA`
pub record Nrgba : Type 0 where
  pub red : ℕ
  pub green : ℕ
  pub blue : ℕ
  pub alpha : ℕ

abbrev rgb : ℕ → ℕ → ℕ → Nrgba
rgb r g b = record { red = r; green = g; blue = b; alpha = 255 }

abbrev tinted : ℕ → Nrgba → Nrgba
tinted a c = record c { alpha = a }

abbrev pub no_color : Nrgba
no_color = record { red = 0; green = 0; blue = 0; alpha = 0 }

abbrev pub color_bg : Nrgba
color_bg = rgb 0x14 0x17 0x1D

abbrev pub color_card : Nrgba
color_card = rgb 0x1D 0x21 0x2A

abbrev pub color_input_bg : Nrgba
color_input_bg = rgb 0x24 0x2A 0x35

abbrev pub color_border : Nrgba
color_border = rgb 0x2C 0x33 0x3F

abbrev pub color_text : Nrgba
color_text = rgb 0xE6 0xEA 0xF2

abbrev pub color_text_sec : Nrgba
color_text_sec = rgb 0x9A 0xA4 0xB5

abbrev pub color_text_inv : Nrgba
color_text_inv = rgb 0xF5 0xF7 0xFA

abbrev pub color_on_accent : Nrgba
color_on_accent = rgb 0x0E 0x12 0x18

abbrev pub color_blue : Nrgba
color_blue = rgb 0x38 0xBD 0xF8

abbrev pub color_blue_dark : Nrgba
color_blue_dark = rgb 0x0E 0xA5 0xE9

abbrev pub color_green : Nrgba
color_green = rgb 0x34 0xD3 0x99

abbrev pub color_green_bg : Nrgba
color_green_bg = tinted 31 color_green

abbrev pub color_yellow : Nrgba
color_yellow = rgb 0xFB 0xBF 0x24

abbrev pub color_gray : Nrgba
color_gray = rgb 0x6B 0x72 0x80

abbrev pub color_gray_bg : Nrgba
color_gray_bg = tinted 26 color_gray

abbrev pub color_danger : Nrgba
color_danger = rgb 0xF8 0x71 0x71

abbrev pub color_danger_dark : Nrgba
color_danger_dark = rgb 0xE1 0x5B 0x5B

abbrev pub color_danger_bg : Nrgba
color_danger_bg = tinted 31 color_danger

-- The overlay of the dialog, `color.NRGBA{R: 0, G: 0, B: 0, A: 128}`.
abbrev pub color_overlay : Nrgba
color_overlay = tinted 128 no_color

-- The card of the status, with `tint.A = 28`.
abbrev pub tint : Nrgba → Nrgba
tint c = tinted 28 c
