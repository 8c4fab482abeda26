-- ===== src/Versions/Tests.antt =====
-- Versions compared, and the theorem of this folder at three.
use sessionhub.Base.{◌≡◌, ◌↔◌, refl, true, false, codes}
use sessionhub.Versions.{parts, is_newer, daemon_is_new_enough}
use sessionhub.Versions.Order.{IsAbove, is_newer_iff}
use sessionhub.Utf8.{is_whitespace}

by_number : is_newer (codes "v0.0.10") (codes "0.0.9") ≡ true
unfolding is_newer is_whitespace
by_number = refl

zeros_are_no_part : is_newer (codes "1.2.0") (codes "1.2") ≡ false
unfolding is_newer is_whitespace
zeros_are_no_part = refl

same_is_enough : daemon_is_new_enough (codes "1.2") (codes "v1.2.0-rc") ≡ true
unfolding daemon_is_new_enough is_whitespace
same_is_enough = refl

is_newer_iff_example :
    (is_newer (codes "1.10") (codes "1.9") ≡ true
      ↔ IsAbove (parts (codes "1.10")) (parts (codes "1.9")))
    × (is_newer (codes "1.10") (codes "1.10") ≡ false)
    × (is_newer (codes "1.10") (codes "1.9") ≡ true
        → is_newer (codes "1.9") (codes "1") ≡ true
        → is_newer (codes "1.10") (codes "1") ≡ true)
is_newer_iff_example = is_newer_iff (codes "1.10") (codes "1.9") (codes "1")
