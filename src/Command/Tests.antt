-- ===== src/Command/Tests.antt =====
-- Runs of the parsers on concrete messages.
use vision_box_dual_cam.Command.{Requests, no_requests}

-- What a message for output 258 leaves: the pin is a byte.
abbrev switched : Requests
switched = record no_requests {
  dout = record no_requests.dout { out_pin = 2; out_mode = "High" };
  cmd_info = "{}";
}
