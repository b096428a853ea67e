-- ===== src/Command/Parse.antt =====
-- iosCtl/IOS_CompFunction.c: the parsers of the IO commands, `IO_MqttParse_...`, called with pointers that
-- are not null.
pub mod Inputs
pub mod Outputs
pub mod Others
unfoldable pub use Inputs.*
unfoldable pub use Outputs.*
unfoldable pub use Others.*
