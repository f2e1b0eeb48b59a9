-- ===== src/ClientServer.antt =====
-- tlpi/client-server.c: a client that passes lines on, and a server that runs the commands in them.
mod Writen
mod Defs
mod Client
mod Lines
mod Session
mod Sends
mod Commands
mod Talking
mod Copying
mod Examples
