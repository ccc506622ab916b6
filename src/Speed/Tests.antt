-- ===== src/Speed/Tests.antt =====
-- Samples of a chunk's speed, in thousandths.
use simple_downloader.Prelude.{◌≡◌, refl}
use simple_downloader.Float.{Fixed, fixed_float}
use simple_downloader.Speed.{new_gauge, update_speed}

sampled :
    update_speed {W = Fixed} 500 300 1000 new_gauge
    ≡ record { speed = 2000000; last_sampled_bytes = 1000 }
unfolding update_speed
sampled = refl
