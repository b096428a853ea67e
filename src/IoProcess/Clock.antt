-- ===== src/IoProcess/Clock.antt =====
-- iosCtl/iosCtl.c: `IO_SetLocalTime`, which sets the clock and the time zone.
use vision_box_dual_cam.Base.{
  ◌+◌, ◌-◌, ◌==◌, ltb, Bool, true, false, String, streq, List, [], ◌∷◌, ◌++◌, if◌then◌else◌,
}
use vision_box_dual_cam.Base.Int.{ℤ, pos, negsuc}
use vision_box_dual_cam.Command.{RtcSetMode}

-- The command lines that the function hands to the shell, with what it prints into them.
pub data Shell : Type 0 where
  set_ntp : Bool → Shell  -- sudo timedatectl set-ntp true|false
  set_date : (year month day hour minute second : ℤ) → Shell  -- sudo /usr/bin/date -s "%d-%d-%d %d:%d:%d"
  set_timezone : String → Shell  -- sudo timedatectl set-timezone %s

-- The name of the zone for an offset; any other text is passed on.
unfoldable pub zone_name : String → String
zone_name s =
    if streq s "+0"
    then "Etc/UTC"
    else if streq s "-0"
    then "Etc/UTC"
    else if streq s "+1"
    then "Europe/Paris"
    else if streq s "+2"
    then "Europe/Athens"
    else if streq s "+3"
    then "Europe/Moscow"
    else if streq s "+4"
    then "Asia/Dubai"
    else if streq s "+5"
    then "Asia/Ashgabat"
    else if streq s "+6"
    then "Asia/Ashgabat"
    else if streq s "+7"
    then "Asia/Singapore"
    else if streq s "+8"
    then "Asia/Taipei"
    else if streq s "+9"
    then "Asia/Tokyo"
    else if streq s "+10"
    then "Asia/Melbourne"
    else if streq s "+11"
    then "Asia/Kamchatka"
    else if streq s "+12"
    then "Asia/Kamchatka"
    else if streq s "-1"
    then "Atlantic/Azores"
    else if streq s "-2"
    then "Brazil/Acre"
    else if streq s "-3"
    then "America/Argentina/La_Rioja"
    else if streq s "-4"
    then "America/Argentina/San_Juan"
    else if streq s "-5"
    then "America/Detroit"
    else if streq s "-6"
    then "America/Chicago"
    else if streq s "-7"
    then "America/Denver"
    else if streq s "-8"
    then "America/Los_Angeles"
    else if streq s "-9"
    then "America/Juneau"
    else if streq s "-10"
    then "Pacific/Honolulu"
    else if streq s "-11"
    then "Indian/Christmas"
    else if streq s "-12"
    then "US/Samoa"
    else s

unfoldable pub plus_1900 : ℤ → ℤ
plus_1900 (pos n) = pos (n + 1900)
plus_1900 (negsuc n) = if ltb n 1900 then pos (1899 - n) else negsuc (n - 1900)

-- The lines of one call in which every `popen` succeeds. `settimeofday` says whether that call does;
-- the month is printed as it stands in `tm_mon`.
unfoldable pub set_local_time : (settimeofday : RtcSetMode → Bool) → RtcSetMode → List Shell
unfolding zone_name plus_1900
set_local_time settimeofday r =
    (set_ntp (if r.use_ntp == 0 then false else true) ∷ [])
    ++ (if settimeofday r
        then []
        else set_date (plus_1900 r.tm_year) r.tm_mon r.tm_mday r.tm_hour r.tm_min r.tm_sec ∷ [])
    ++ (set_timezone (zone_name r.timezone) ∷ [])
