-- ===== src/Views/Tests.antt =====
-- A text that src/northgate_rmm/views.py escapes.
use northgate_rmm.Prelude.{◌≡◌, refl}
use northgate_rmm.Views.{escape, escape_char}

escaped_tag : escape "<b>" ≡ "&lt;b&gt;"
unfolding escape escape_char
escaped_tag = refl
