-- ===== src/Lib.antt =====
-- ZyboZ7: a verification library for the C code of the repository.
--
-- The program has parts that run on their own. On the board's Linux, the kernel module
-- KernelModules/adcsonar samples a sonar through the XADC converter and offers the last reading at
-- /dev/adcsonar; the broker UserSpace/mqttbroker reads it there and publishes it with MQTT over TLS. The modules
-- KernelModules/motorcontrol, center-aligned and firstmodule sweep a PWM, switch the duty cycles of another at
-- each of its interrupts, and blink two LEDs. The firmware PedalBoardProject configures an audio codec and
-- drives the registers of a guitar effects pedal in the programmable logic.
--
-- Common and its children: tests, options, lists, integers and bit fields that the parts share;
-- Replay holds a list of calls to rules.
-- Mqtt (UserSpace/mqttbroker/files/MqttHandle/MqttHandle.c and .h): Types is the state, a record of the static
-- variables; Memory is an array with bounds and a moving pointer; Packet builds the packets and tests the
-- answers (connect_create_message is SSL_Mqtt_Connect_CreateMessage, publish_create_packet is
-- SSL_Mqtt_Publish_CreatePacket, and so on); Payload is the payload and the names; Tls is the interface of
-- OpenSSL, a parameter; Transfer is ssl_write_data, ssl_read_data and the two handlers; App is MqttHandle_App,
-- one function for each case of its switch. An access outside an array is `none`. Connection is ssl_init,
-- tcp_connect, ssl_handshake, MqttHandle_Init and MqttHandle_DeInit over the calls that Connection.Calls lists;
-- Connection.Protocol says which of those calls are allowed, by what the program holds.
-- Broker (UserSpace/mqttbroker/files/mqttSender.c): AppScheduler and the main loop, over Mqtt and the reader of
-- Sonar; Broker.Publication, Phases and Samples are what the loop keeps of the samples. Drivers is
-- XadcHandle/XadcHandle.c and the commands of AdcSonarHandle/AdcSonarHandle.c; Process is `main` before its loop,
-- handle_sigint with its registration, and the loop with the calls that it makes of the drivers, over Drivers and Mqtt.Connection.
-- Sonar (KernelModules/adcsonar/files/xadc.c, xadc.h and adcsonar_main.c): Xadc is the driver over a device
-- that is a parameter, where an access through NULL is `none`; Xadc.Lifecycle is Xadc_Init and Xadc_DeInit,
-- Xadc.Requests the interrupt between them, as request_irq and free_irq keep it;
-- Thread is adcSonar_thread, the device's read, and its reader AdcSonarHandle_ReadData of the broker;
-- KernelModule is adcsonar_init and adcsonar_exit, over what the kernel answers.
-- Pedal (PedalBoardProject/I2s/I2s.c and I2s.h): Config is the types, Board the setters, PedalBoard_Init and
-- PedalBoard_100ms; Board.Device is what their writes leave in the device's registers. Codec is PedalBoardProject/I2c/I2c.c, over a bus that is
-- a parameter; Main is PedalBoardProject/main.c.
-- Motor (KernelModules/motorcontrol/files/motorcontrol.c): ledControlThread, the sweep of the PWM's duty cycle;
-- Module is loading and unloading.
-- CenterAligned (KernelModules/center-aligned/files/center-aligned.c): the interrupt, loading and unloading.
-- Led (KernelModules/firstmodule/files/firstmodule.c): the thread, loading and unloading.
--
-- Words have their wrap-around written out. The loop of the remaining length recurses on the accessibility
-- of its number, so it needs no fuel; `thread` and `motor_run` take the number of iterations, `run` and
-- `broker_run` and `process_run` the list of their inputs, and what is proved of them is proved of every number.
-- The loop over the server's certificates takes fuel; one turn more than the text has bytes is enough.
--
-- Where a part is a row of calls on a library, its state keeps the calls made so far with their answers, the
-- answers are a parameter, and a ledger of the library's rules replays the calls (Common.Replay).
--
-- Not modelled: everything that is not C; the arguments of library calls that are constants, messages on the
-- console, and the two interrupt handlers of the codec that are empty. Floating-point numbers with the text that
-- printf gives for them are a parameter, and so are OpenSSL, the sockets, the operating system, the devices'
-- registers and the kernel. Locks are not modelled: an iteration of the thread and a read of the device are
-- each one step. A signal is taken between two steps.
pub mod Common
pub mod Mqtt
pub mod Sonar
pub mod Broker
pub mod Pedal
pub mod Motor
pub mod Led
pub mod CenterAligned
