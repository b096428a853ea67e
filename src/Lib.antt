-- ===== src/Lib.antt =====
-- The firmware of the vision box: one process that inspects the glue on two cameras' pictures. The main
-- thread runs the state machine of the inspection and reads commands; an MQTT thread receives commands
-- and verdicts from the web backend; one image thread for each camera and an IO thread take commands
-- out of queues; a trigger thread watches the inputs. They share global variables and queues.
--
-- The modules and the code they are about:
--
--   Base      names from the libraries, tests, texts, lists, the integers of return codes, and the
--             index and arrays of the two cameras.
--   Queue     Queue/Deque is the body that all enqueue and dequeue functions share. Queue/Inner has the
--             innerQ functions of mainCtl/mainCtl.c, Queue/Algo has TasksQ and ExModeQ of
--             ipsCtl/IPS_CompAlgorithm.c, Queue/Json has JsonQ of ipsCtl/IPS_CompFunction.c and IO_JsonQ of
--             iosCtl/IOS_CompFunction.c. Queue/Fifo says independently what a queue is, and
--             Queue/Interface is the interface that each family fills.
--   Threads   suspend, resume and close of mainCtl/mainCtl.c for the image threads, the IO thread and the
--             main thread's auto mode; Threads/Worker is one flag with the thread that waits on it, one
--             step for each access to a shared variable.
--   Node      the structure PROCESS_NODE of common.h and its enumerations.
--   Io        Io/Sysfs is the part of the operating system that the IO code calls: what it answers is a
--             parameter. Io/Gpio and Io/Pwm are iosCtl/gpio.c and iosCtl/pwm.c; Io/Dout, Io/Light and
--             Io/Led are the outputs, the lights and the LEDs of iosCtl/iosCtl.c; Io/Status shows
--             states on the LEDs. Io/Report and Io/Activate are the verdict message and the message that
--             starts and stops the inspection, iosCtl/IOS_CompFunction.c.
--   Algo      Algo/Names has the table of command names of ipsCtl/IPS_MethodStructureDef.c, Algo/HashMap the
--             maps from names to rows, and Algo/Assign the four functions that turn a command into a
--             queued task, setAlgo_ParamAssign, setAlgo_MethodAssign and their dual versions.
--   Flow      Process_Flow_Handler and Process_Flow_Handler_Dual of mainCtl/mainCtl.c. Flow/State is what
--             the two handlers share with the other threads. Both are one definition with the camera as
--             its argument, since their texts differ in names only.
--             Flow/World has the steps of all threads on that state.
--   Main      the service of the command queues in the loop of mainCtl, mainCtl/mainCtl.c, and its priority
--             pass for internal commands.
--   Command   the 25 commands of the IO process. Command/Table has their numbers and names,
--             iosCtl/IOS_MethodStructureDef.h; the root has the global structures of common.c through which
--             the arguments reach the IO thread, as one record Requests. Command/Parse has the parsers of
--             iosCtl/IOS_CompFunction.c, each a list of the arguments it takes; Command/Json is what the
--             library json-c answers, an interface, and the copies into arrays; Command/Assign is
--             setIO_ParamAssign. Command/Bounds has the types and array sizes of common.h.
--   Receive   ext_message_callback_Dual and ext_json_parse_Dual of mainCtl/ext_mqtt_client.c, by which a message
--             becomes entries of the queues.
--   IoProcess ios_process of mainCtl/mainCtl.c. IoProcess/Station has its state and where it runs,
--             IoProcess/Handle the branch of each command, with IoProcess/Mode for the requested modes,
--             IoProcess/Answer the JSON answers as values, and IoProcess/Clock IO_SetLocalTime of
--             iosCtl/iosCtl.c. IoProcess/Loop is the loop over the queue; IoProcess/World has the turns of
--             the MQTT thread, the IO thread and the main loop.
--   Trigger   trigCtl of iosCtl/iosCtl.c, the trigger thread: the set-up of the six lines, the edges that poll
--             reports, the second look at a level 51 milliseconds later, and the triggers it queues. What a
--             round meets, the clock, poll and the levels, is its argument.
--   Image     ips_process_Dual of mainCtl/mainCtl.c, the body of its loop. Image/Auto runs the tasks that were
--             recorded, Image/Normal records a command or runs it at once, Image/Loop is the loop. The
--             vision methods and the parameter converters of a row are a parameter, over the memory they
--             work on. A recorded run and the flags are those of one thread, while no other writes.
--   Cameras   the handles of the camera driver, ipsComp_... of ipsCtl/IPS_CompAlgorithm.c.
--   Samples   concrete data for the witnesses in the modules named Tests and Scenarios.
--
-- A function of the code is a function here: it takes the state and returns its result and the new state.
-- A function that locks a mutex from its first to its last access is one step. An Option result
-- `none` is an access that C leaves undefined, such as a call through a null pointer. Values that C leaves
-- undetermined, such as an unset stack variable, are arguments named `stack` or `ret`.
--
-- Numbers of type unsigned int, uint8_t and uint16_t are natural numbers; where the code can leave the
-- range the wrap-around is written out, as for the byte of an LED port and the 16-bit brightness. The
-- character arrays of a node are texts; a copy between two nodes' arrays of one length fits, and the
-- messages in the queues are shorter than MAX_MSG_SIZE. Some definitions take fuel: the leading digit of
-- a channel number and the digits of an array index are given one round for each unit of the number, and
-- the loops of the image thread and of the IO thread one round for each queued command, which is
-- enough since neither queues commands itself. Where a theorem says how often a handler runs or how many
-- steps a thread takes, the number is part of the theorem.
--
-- A command handler of the IO thread is one step here; the MQTT thread, which has no lock on the global
-- structures, is taken to run between handlers, not within one. In IO_SetLocalTime every popen succeeds.
--
-- Not modelled: the vision algorithms and camera drivers under ipsCtl/Merge_Measure_GlueWidth, the
-- copy of the I2C tools under iosCtl/i2c-tools, the test clients under backend, the connection of the MQTT
-- client and the polling of the modbus server, the JSON parsers of the algorithm parameters, and the
-- set-up of the other devices. Logging and sleeping have no effect on the state. The counter of the
-- trigger thread is an unbounded integer here: an int overflows only after 2^31 edges less than a second
-- apart.
pub mod Base
pub mod Queue
pub mod Threads
pub mod Node
pub mod Io
pub mod Algo
pub mod Flow
pub mod Cameras
pub mod Main
pub mod Command
pub mod Receive
pub mod IoProcess
pub mod Trigger
pub mod Image
mod Samples
